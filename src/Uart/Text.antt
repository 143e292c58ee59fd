-- ===== src/Uart/Text.antt =====
-- What a text that is written to a serial port sends.
use mox_boot_builder.Prelude.{
  ℕ, suc, ◌^◌, ◌≡◌, refl, sym, ap, ◌∙◌, inl, inr, Bool-cases, true, false, some, List, [], ◌∷◌,
  ◌++◌, bit_and, ◌==◌, if◌then◌else◌,
}
use mathlib.Core.List.{append_assoc, append-nil}
use mox_boot_builder.Bits.{u8}
use mox_boot_builder.Bus.{Bus}
use mox_boot_builder.Bus.Wait.{Wait, ◌>>=◌, give, put, after-some}
use mox_boot_builder.Uart.{UartInfo, wait_set, wait_clear, send, uart_putc, fputs}

-- A text with a carriage return in front of each newline.
unfoldable pub with_returns : List ℕ → List ℕ
with_returns [] = []
with_returns (c ∷ text) =
    let rest = with_returns text in if u8 c == 10 then 13 ∷ 10 ∷ rest else u8 c ∷ rest

module _ {S : Type 0} (bus : Bus S) (info : UartInfo) (sent : S → List ℕ) where
  -- A port that is always ready to send: bit 11 of its status is clear and bit 6 is set.
  pub record IsReady : Type 0 where
    pub not_full : (s : S) → (bit_and (bus.read info.status s).0 (2 ^ 11) == 0) ≡ true
    pub empty : (s : S) → (bit_and (bus.read info.status s).0 (2 ^ 6) == 0) ≡ false
    pub keeps : (s : S) → sent (bus.read info.status s).1 ≡ sent s
    pub sends : (c : ℕ) (s : S) → sent (bus.write c info.tx s) ≡ sent s ++ c ∷ []

  -- A run that ends, and has sent `out`.
  abbrev pub Sends : {A : Type 0} → Wait S A → List ℕ → S → Type 0
  Sends {A} m out s = (a : A) × (t : S) × (m s ≡ some (a, t)) × (sent t ≡ sent s ++ out)

  then-Sends :
      {A B : Type 0} (m : Wait S A) (k : A → Wait S B) (out more : List ℕ) (s : S)
      → Sends m out s
      → ((a : A) (t : S) → Sends (k a) more t)
      → Sends (m >>= k) (out ++ more) s
  then-Sends m k out more s (a, t, ran, gone) next =
      let (b, u, ran1, gone1) = next a t in
      (
        b,
        u,
        after-some m k s ran ∙ ran1,
        gone1 ∙ ap (λ (l : List ℕ). l ++ more) gone ∙ append_assoc (sent s) out more,
      )

  module _ (ready : IsReady) (fuel : ℕ) where
    after_read : (s : S) → sent (bus.read info.status s).1 ≡ sent s ++ []
    after_read s = ready.keeps s ∙ sym (append-nil (sent s))

    wait_clear-Sends : (s : S) → Sends (wait_clear bus info (suc fuel) (2 ^ 11)) [] s
    unfolding wait_clear
    wait_clear-Sends s = rw (ready.not_full s) (tt, (bus.read info.status s).1, refl, after_read s)

    wait_set-Sends : (s : S) → Sends (wait_set bus info (suc fuel) (2 ^ 6)) [] s
    unfolding wait_set
    wait_set-Sends s = rw (ready.empty s) (tt, (bus.read info.status s).1, refl, after_read s)

    send-Sends : (c : ℕ) (s : S) → Sends (send bus info (suc fuel) c) (c ∷ []) s
    unfolding send
    send-Sends c s =
        then-Sends (wait_clear bus info (suc fuel) (2 ^ 11)) (λ _. put bus c info.tx) [] (c ∷ []) s
          (wait_clear-Sends s) (λ a t. (tt, bus.write c info.tx t, refl, ready.sends c t))

    done-Sends : {A : Type 0} (a : A) (s : S) → Sends (give a) [] s
    done-Sends a s = (a, s, refl, sym (append-nil (sent s)))

    newline-Sends :
        (c : ℕ) (s : S)
        → (u8 c == 10) ≡ true
        → Sends (uart_putc bus info (suc fuel) c) (13 ∷ 10 ∷ []) s
    unfolding uart_putc
    newline-Sends c s h =
        let finish = wait_set bus info (suc fuel) (2 ^ 6) >>= λ _. give 10 in
        rw h (
          then-Sends (send bus info (suc fuel) 13)
            (λ _. send bus info (suc fuel) 10 >>= λ _. finish) (13 ∷ []) (10 ∷ []) s
            (send-Sends 13 s)
            (λ a t.
              then-Sends (send bus info (suc fuel) 10) (λ _. finish) (10 ∷ []) [] t
                (send-Sends 10 t)
                (λ b u.
                  then-Sends (wait_set bus info (suc fuel) (2 ^ 6)) (λ _. give 10) [] [] u
                    (wait_set-Sends u) (λ e v. done-Sends 10 v))))

    other-Sends :
        (c : ℕ) (s : S)
        → (u8 c == 10) ≡ false
        → Sends (uart_putc bus info (suc fuel) c) (u8 c ∷ []) s
    unfolding uart_putc
    other-Sends c s h = rw h (
        then-Sends (send bus info (suc fuel) (u8 c)) (λ _. give (u8 c)) (u8 c ∷ []) [] s
          (send-Sends (u8 c) s) (λ a t. done-Sends (u8 c) t))

    -- Writing a text to a port that is always ready to send ends, and has sent the low 8 bits of its
    -- characters in their order, with a carriage return in front of each newline.
    pub fputs-with_returns :
        (text : List ℕ) (s : S)
        → (t : S) × (fputs bus info (suc fuel) text s ≡ some (tt, t))
          × (sent t ≡ sent s ++ with_returns text)
    unfolding fputs with_returns
    fputs-with_returns [] s = (s, refl, sym (append-nil (sent s)))
    fputs-with_returns (c ∷ text) s =
        let put_c = uart_putc bus info (suc fuel) c in
        let rest : ℕ → Wait S (Unit {0}) = λ _. fputs bus info (suc fuel) text in
        let tail = with_returns text in
        let next : (a : ℕ) (t : S) → Sends (rest a) tail t =
          λ a t. let (u, ran, gone) = fputs-with_returns text t in (tt, u, ran, gone) in
        elim (Bool-cases (u8 c == 10)) [
          | inl h ↦
              let (a, t, ran, gone) =
                then-Sends put_c rest (13 ∷ 10 ∷ []) tail s (newline-Sends c s h) next in
              (t, ran, rw h gone)
          | inr h ↦
              let (a, t, ran, gone) =
                then-Sends put_c rest (u8 c ∷ []) tail s (other-Sends c s h) next in
              (t, ran, rw h gone)
        ]

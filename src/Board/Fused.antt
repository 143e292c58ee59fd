-- ===== src/Board/Fused.antt =====
-- A board that deploy.c has written is recognised by board.c.
use mox_boot_builder.Prelude.{
  ℕ, ◌+◌, ◌-◌, ◌*◌, ◌/◌, ◌%◌, ◌^◌, ◌<◌, ◌≡◌, refl, sym, ap, ◌∙◌, arith, Bool, true, ◌&&◌, ◌==◌,
  bit_and, none, some, if◌then◌else◌,
}
use mox_boot_builder.Bits.Fields.{and_mask}
use mox_boot_builder.Bus.{Bus, Returns}
use mox_boot_builder.Bus.Wait.{give, after-some}
use mox_boot_builder.Efuse.{Row}
use mox_boot_builder.Efuse.Rows.{efuse_read_row}
use mox_boot_builder.Deploy.{BuilderData, board_word, is_ripe}
use mox_boot_builder.Deploy.Fields.{IsWords, board_value_lem}
use mox_boot_builder.Board.{
  turris_mox, ripe_atlas, cznic_mac, fused_board, from_row, detect, find_board, get_board,
}

-- An address of CZ.NIC, in the two words that deploy.c has of it.
abbrev pub IsCznic : BuilderData → Type 0
IsCznic mbd = mbd.mac_addr_high % 2 ^ 16 * 2 ^ 8 + mbd.mac_addr_low / 2 ^ 24 ≡ 0xd858d7

board_word-cznic :
    (code : ℕ) (mbd : BuilderData)
    → code < 4
    → IsWords mbd
    → IsCznic mbd
    → cznic_mac (board_word code mbd) ≡ true
unfolding cznic_mac
board_word-cznic code mbd h v c =
    let word = board_word code mbd in
    let e = board_value_lem code mbd h v in
    let same : bit_and (word / 2 ^ 24) (2 ^ 24 - 1) ≡ 0xd858d7 =
      and_mask 24 (word / 2 ^ 24) ∙ omega (arith, e, v.mac_low) in
    ap (λ t. t == 0xd858d7) same

board_word-fused :
    (code : ℕ) (mbd : BuilderData)
    → code < 4
    → IsWords mbd
    → fused_board (board_word code mbd) ≡ (if is_ripe mbd then ripe_atlas else turris_mox)
unfolding fused_board is_ripe
board_word-fused code mbd h v =
    let word = board_word code mbd in
    let e = board_value_lem code mbd h v in
    let same : bit_and (word / 2 ^ 54) 3 ≡ bit_and (mbd.board_version / 2 ^ 6) 3 =
      and_mask 2 (word / 2 ^ 54)
      ∙ omega (arith, e, v.mac_low)
      ∙ sym (and_mask 2 (mbd.board_version / 2 ^ 6)) in
    ap (λ t. if t == 2 then ripe_atlas else turris_mox) same

module _ {S : Type 0} (bus : Bus S) (fuel : ℕ) where
  -- If row 42 is read as locked and with the value that deploy.c writes for an address of CZ.NIC, the
  -- first `get_board` finds the board that was meant, and has done nothing but that read; and
  -- every later one gives the same board and does nothing at all.
  pub get_board-board_word :
      (code : ℕ) (mbd : BuilderData) (flag : Bool) (s t : S) (r : Row)
      → code < 4
      → IsWords mbd
      → IsCznic mbd
      → r.lock ≡ true
      → r.val ≡ board_word code mbd
      → Returns (efuse_read_row bus 42 true s) r t
      → let b = if is_ripe mbd then ripe_atlas else turris_mox in
        (get_board bus fuel none flag s ≡ some ((b, some b, flag), t))
        × ((u : S) → get_board bus fuel (some b) flag u ≡ some ((b, some b, flag), u))
  unfolding get_board find_board
  get_board-board_word code mbd flag s t r h v c locked value read =
      let b = if is_ripe mbd then ripe_atlas else turris_mox in
      let fused : fused_board r.val ≡ b = ap fused_board value ∙ board_word-fused code mbd h v in
      let mac : cznic_mac r.val ≡ true = ap cznic_mac value ∙ board_word-cznic code mbd h v c in
      let both : (r.lock && cznic_mac r.val) ≡ true =
        both_true r.lock (cznic_mac r.val) locked mac in
      let found : find_board bus fuel flag s ≡ some ((b, flag), t) =
        ap (λ x. from_row bus fuel flag x.0 x.1) read
        ∙ ap (λ (y : Bool). (if y then give (fused_board r.val, flag) else detect bus fuel flag) t)
            both
        ∙ ap (λ w. some ((w, flag), t)) fused in
      (after-some (find_board bus fuel flag) (λ x. give (x.0, some x.0, x.1)) s found, λ u. refl)
    where
      both_true : (x y : Bool) → x ≡ true → y ≡ true → (x && y) ≡ true
      both_true x y p q = rw (p, q) refl

-- ===== src/Debug/Erase.antt =====
-- What is erased from the command that is edited in debug.c.
use mox_boot_builder.Prelude.{
  ℕ, zero, suc, ◌+◌, ◌-◌, ◌≤◌, ◌<◌, ◌≡◌, ◌⊎◌, inl, inr, refl, sym, ap, ◌∙◌, arith, Bool-cases, true,
  false, List, [], ◌∷◌, length, take, get_or, set, ltb, leb, ◌==◌, length-set, length-take,
  get_or-set_self, get_or-set_ne,
}
use mox_boot_builder.Strings.{Memory}
use mox_boot_builder.Strings.Copy.{get_or-take}
use mox_boot_builder.Debug.Editor.{Editor, shift_down, cmd_append, cmd_del}
use mox_boot_builder.Debug.Keys.{consume_normal, consume}
use mox_boot_builder.Debug.Bounds.{IsValid, cmd_append-IsValid, with_cmd, length-shift_down}
use mox_boot_builder.Debug.Text.{
  text, delete_at, same_list, delete_at-insert_at, cmd_append-insert_at,
}

shift_down-outside :
    (n i j : ℕ) (mem : Memory)
    → (j < i) ⊎ (i + n ≤ j)
    → get_or (shift_down n i mem) j 0 ≡ get_or mem j 0
unfolding shift_down
shift_down-outside zero i j mem o = refl
shift_down-outside (suc n) i j mem o =
    shift_down-outside n (i + 1) j (set mem i (get_or mem (i + 1) 0)) (ground arith)
    ∙ get_or-set_ne mem i j (get_or mem (i + 1) 0) 0 (ground arith)

shift_down-inside :
    (n i j : ℕ) (mem : Memory)
    → i + n ≤ length mem
    → i ≤ j
    → j < i + n
    → get_or (shift_down n i mem) j 0 ≡ get_or mem (j + 1) 0
unfolding shift_down
shift_down-inside zero i j mem fits lo hi = absurd (omega arith)
shift_down-inside (suc n) i j mem fits lo hi =
    let moved = set mem i (get_or mem (i + 1) 0) in
    elim (Bool-cases (j == i)) [
      | inl e ↦
          let same : i ≡ j = ground arith in
          shift_down-outside n (i + 1) j moved (inl (omega arith))
          ∙ ap (λ k. get_or moved k 0) (sym same)
          ∙ get_or-set_self mem i (get_or mem (i + 1) 0) 0 (omega arith)
          ∙ ap (λ k. get_or mem (k + 1) 0) same
      | inr more ↦
          let above : i < j = ground arith in
          shift_down-inside n (i + 1) j moved
            (omega (arith, length-set mem i (get_or mem (i + 1) 0))) (omega arith) (omega arith)
          ∙ get_or-set_ne mem i (j + 1) (get_or mem (i + 1) 0) 0 (omega arith)
    ]

length-delete_at : (p : ℕ) (xs : List ℕ) → p < length xs → length (delete_at p xs) ≡ length xs - 1
unfolding delete_at
length-delete_at p [] h = absurd (omega arith)
length-delete_at zero (x ∷ xs) h = omega arith
length-delete_at (suc p) (x ∷ xs) h = omega (arith, length-delete_at p xs (omega arith))

delete_at-before :
    (p : ℕ) (xs : List ℕ) (k : ℕ) → k < p → get_or (delete_at p xs) k 0 ≡ get_or xs k 0
unfolding delete_at
delete_at-before p [] k lt = refl
delete_at-before zero (x ∷ xs) k lt = absurd (omega arith)
delete_at-before (suc p) (x ∷ xs) zero lt = refl
delete_at-before (suc p) (x ∷ xs) (suc k) lt = delete_at-before p xs k (omega arith)

delete_at-behind :
    (p : ℕ) (xs : List ℕ) (k : ℕ) → p ≤ k → get_or (delete_at p xs) k 0 ≡ get_or xs (k + 1) 0
unfolding delete_at
delete_at-behind p [] k le = refl
delete_at-behind zero (x ∷ xs) k le =
    let next : suc k ≡ k + 1 = omega arith in ap (λ j. get_or (x ∷ xs) j 0) next
delete_at-behind (suc p) (x ∷ xs) zero le = absurd (omega arith)
delete_at-behind (suc p) (x ∷ xs) (suc k) le =
    let next : suc (k + 1) ≡ suc k + 1 = omega arith in
    delete_at-behind p xs k (omega arith) ∙ ap (λ j. get_or (x ∷ xs) j 0) next

deleted_place :
    (n p k : ℕ) (mem : Memory)
    → p < n
    → n ≤ length mem
    → k < n - 1
    → get_or (shift_down (n - 1 - p) p mem) k 0 ≡ get_or (delete_at p (take n mem)) k 0
deleted_place n p k mem h fits lt = elim (Bool-cases (ltb k p)) [
  | inl b ↦
      let before : k < p = ground arith in
      shift_down-outside (n - 1 - p) p k mem (inl before)
      ∙ sym (get_or-take n k mem (omega arith))
      ∙ sym (delete_at-before p (take n mem) k before)
  | inr b ↦
      let behind : p ≤ k = ground arith in
      shift_down-inside (n - 1 - p) p k mem (omega arith) behind (omega arith)
      ∙ sym (get_or-take n (k + 1) mem (omega arith))
      ∙ sym (delete_at-behind p (take n mem) k behind)
]

deleted_text :
    (n p : ℕ) (mem : Memory)
    → p < n
    → n ≤ length mem
    → take (n - 1) (shift_down (n - 1 - p) p mem) ≡ delete_at p (take n mem)
deleted_text n p mem h fits =
    let down = shift_down (n - 1 - p) p mem in
    let all : length down ≡ length mem = length-shift_down (n - 1 - p) p mem in
    let size : length (take n mem) ≡ n = length-take n mem ∙ omega arith in
    let left : length (take (n - 1) down) ≡ n - 1 = length-take (n - 1) down ∙ omega arith in
    same_list (take (n - 1) down) (delete_at p (take n mem))
      (omega (arith, length-delete_at p (take n mem) (omega arith)))
      (λ k lt.
        get_or-take (n - 1) k down (omega arith) ∙ deleted_place n p k mem h fits (omega arith))

-- `cmd_del` takes the character at the cursor out of the text, where there is one.
pub cmd_del-delete_at :
    (e : Editor) → IsValid e → e.cmdpos < e.cmdlen → text (cmd_del e) ≡ delete_at e.cmdpos (text e)
unfolding cmd_del
cmd_del-delete_at e v h =
    let inside : (e.cmdpos == e.cmdlen) ≡ false = ground arith in
    rw inside (deleted_text e.cmdlen e.cmdpos e.cmd h (omega (arith, v.len_in, v.cmd_size)))

consume-cmd_append :
    (c : ℕ) (e : Editor) → e.escape_state ≡ 0 → 32 ≤ c → c ≤ 126 → consume c e ≡ cmd_append c e
unfolding consume consume_normal
consume-cmd_append c e z lo hi =
    let s1 : (e.escape_state == 1) ≡ false = ground arith in
    let s2 : (e.escape_state == 2) ≡ false = ground arith in
    let s3 : (e.escape_state == 3) ≡ false = ground arith in
    let k1 : (c == 1) ≡ false = ground arith in
    let k3 : (c == 3) ≡ false = ground arith in
    let k5 : (c == 5) ≡ false = ground arith in
    let k8 : (c == 8) ≡ false = ground arith in
    let k127 : (c == 127) ≡ false = ground arith in
    let k13 : (c == 13) ≡ false = ground arith in
    let k10 : (c == 10) ≡ false = ground arith in
    let k27 : (c == 27) ≡ false = ground arith in
    let l : leb 32 c ≡ true = ground arith in
    let h : leb c 126 ≡ true = ground arith in
    rw (s1, s2, s3, k1, k3, k5, k8, k127, k13, k10, k27, l, h) refl

consume-erase :
    (e : Editor)
    → e.escape_state ≡ 0
    → 0 < e.cmdpos
    → consume 127 e ≡ cmd_del (record e { cmdpos = e.cmdpos - 1 })
unfolding consume consume_normal
consume-erase e z h =
    let s1 : (e.escape_state == 1) ≡ false = ground arith in
    let s2 : (e.escape_state == 2) ≡ false = ground arith in
    let s3 : (e.escape_state == 3) ≡ false = ground arith in
    let p : (e.cmdpos == 0) ≡ false = ground arith in rw (s1, s2, s3, p) refl

cmd_append-fields :
    (c : ℕ) (e : Editor)
    → e.cmdlen < 127
    → ((cmd_append c e).escape_state ≡ e.escape_state) × ((cmd_append c e).cmdlen ≡ e.cmdlen + 1)
unfolding cmd_append
cmd_append-fields c e room =
    let short : leb 127 e.cmdlen ≡ false = ground arith in rw short (refl, refl)

cmd_del-cmdpos : (e : Editor) → (cmd_del e).cmdpos ≡ e.cmdpos
unfolding cmd_del
cmd_del-cmdpos e = elim (Bool-cases (e.cmdpos == e.cmdlen)) [
  | inl a ↦ rw a refl
  | inr b ↦ rw b refl
]

-- Outside an escape sequence, a printable character that is typed where there is room and then
-- erased leaves the text and the cursor as they were.
pub consume-consume :
    (c : ℕ) (e : Editor)
    → IsValid e
    → e.escape_state ≡ 0
    → e.cmdlen < 127
    → 32 ≤ c
    → c ≤ 126
    → (text (consume 127 (consume c e)) ≡ text e) × ((consume 127 (consume c e)).cmdpos ≡ e.cmdpos)
consume-consume c e v z room lo hi =
    let typed = cmd_append c e in
    let w = cmd_append-IsValid c e v in
    let (put, pos) = cmd_append-insert_at c e v room in
    let (state, len) = cmd_append-fields c e room in
    let back = record typed { cmdpos = typed.cmdpos - 1 } in
    let at : typed.cmdpos - 1 ≡ e.cmdpos = omega (arith, pos) in
    let run : consume 127 (consume c e) ≡ cmd_del back =
      ap (λ d. consume 127 d) (consume-cmd_append c e z lo hi)
      ∙ consume-erase typed (state ∙ z) (omega (arith, pos)) in
    let valid : IsValid back =
      with_cmd typed typed.cmd typed.cmdlen (typed.cmdpos - 1) w w.cmd_size
        (omega (arith, w.pos_in)) w.len_in in
    let size : e.cmdpos ≤ length (text e) =
      omega (arith, length-take e.cmdlen e.cmd, v.pos_in, v.len_in, v.cmd_size) in
    (
      ap text run
          ∙ cmd_del-delete_at back valid (omega (arith, at, len, v.pos_in))
          ∙ ap (λ p. delete_at p (text typed)) at
          ∙ ap (λ t. delete_at e.cmdpos t) put
          ∙ delete_at-insert_at e.cmdpos c (text e) size,
      ap (λ d. d.cmdpos) run ∙ cmd_del-cmdpos back ∙ at,
    )

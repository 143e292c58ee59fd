-- ===== src/Debug/Text.antt =====
-- The command that is edited as a text: what the shifting loops of debug.c do to it.
use mox_boot_builder.Prelude.{
  ℕ, zero, suc, ◌+◌, ◌-◌, ◌≤◌, ◌<◌, ◌≡◌, ◌⊎◌, inl, inr, refl, sym, ap, ◌∙◌, arith, Bool-cases,
  false, List, [], ◌∷◌, length, take, get_or, set, leb, ◌==◌, length-set, length-take,
  get_or-set_self, get_or-set_ne,
}
use mox_boot_builder.Strings.{Memory}
use mox_boot_builder.Strings.Copy.{get_or-take}
use mox_boot_builder.Debug.Editor.{Editor, shift_up, cmd_append}
use mox_boot_builder.Debug.Bounds.{IsValid, length-shift_up}

abbrev pub text : Editor → List ℕ
text e = take e.cmdlen e.cmd

unfoldable pub insert_at : ℕ → ℕ → List ℕ → List ℕ
insert_at zero c xs = c ∷ xs
insert_at (suc p) c [] = c ∷ []
insert_at (suc p) c (x ∷ xs) = x ∷ insert_at p c xs

unfoldable pub delete_at : ℕ → List ℕ → List ℕ
delete_at p [] = []
delete_at zero (x ∷ xs) = xs
delete_at (suc p) (x ∷ xs) = x ∷ delete_at p xs

pub same_list :
    (xs ys : List ℕ)
    → length xs ≡ length ys
    → ((k : ℕ) → k < length xs → get_or xs k 0 ≡ get_or ys k 0)
    → xs ≡ ys
same_list [] [] n h = refl
same_list [] (y ∷ ys) n h = absurd (omega arith)
same_list (x ∷ xs) [] n h = absurd (omega arith)
same_list (x ∷ xs) (y ∷ ys) n h =
    let first : x ≡ y = h 0 (omega arith) in
    let rest = same_list xs ys (omega arith) (λ k lt. h (suc k) (omega arith)) in cc

length-insert_at : (p c : ℕ) (xs : List ℕ) → length (insert_at p c xs) ≡ length xs + 1
unfolding insert_at
length-insert_at zero c xs = omega arith
length-insert_at (suc p) c [] = refl
length-insert_at (suc p) c (x ∷ xs) = omega (arith, length-insert_at p c xs)

insert_at-before :
    (p c : ℕ) (xs : List ℕ) (k : ℕ)
    → p ≤ length xs
    → k < p
    → get_or (insert_at p c xs) k 0 ≡ get_or xs k 0
unfolding insert_at
insert_at-before zero c xs k h lt = absurd (omega arith)
insert_at-before (suc p) c [] k h lt = absurd (omega arith)
insert_at-before (suc p) c (x ∷ xs) zero h lt = refl
insert_at-before (suc p) c (x ∷ xs) (suc k) h lt =
    insert_at-before p c xs k (omega arith) (omega arith)

insert_at-here : (p c : ℕ) (xs : List ℕ) → p ≤ length xs → get_or (insert_at p c xs) p 0 ≡ c
unfolding insert_at
insert_at-here zero c xs h = refl
insert_at-here (suc p) c [] h = absurd (omega arith)
insert_at-here (suc p) c (x ∷ xs) h = insert_at-here p c xs (omega arith)

insert_at-behind :
    (p c : ℕ) (xs : List ℕ) (k : ℕ)
    → p ≤ length xs
    → p < k
    → get_or (insert_at p c xs) k 0 ≡ get_or xs (k - 1) 0
unfolding insert_at
insert_at-behind p c xs zero h lt = absurd (omega arith)
insert_at-behind zero c xs (suc k) h lt =
    let same : k ≡ suc k - 1 = omega arith in ap (λ j. get_or xs j 0) same
insert_at-behind (suc p) c [] (suc k) h lt = absurd (omega arith)
insert_at-behind (suc p) c (x ∷ xs) (suc zero) h lt = absurd (omega arith)
insert_at-behind (suc p) c (x ∷ xs) (suc (suc k)) h lt =
    insert_at-behind p c xs (suc k) (omega arith) (omega arith) ∙ sym (shifted x xs k)
  where
    shifted :
        (x : ℕ) (xs : List ℕ) (k : ℕ)
        → get_or (x ∷ xs) (suc (suc k) - 1) 0 ≡ get_or xs (suc k - 1) 0
    shifted x xs k =
        let a : suc (suc k) - 1 ≡ suc k = omega arith in
        let b : k ≡ suc k - 1 = omega arith in
        ap (λ j. get_or (x ∷ xs) j 0) a ∙ ap (λ j. get_or xs j 0) b

pub delete_at-insert_at :
    (p c : ℕ) (xs : List ℕ) → p ≤ length xs → delete_at p (insert_at p c xs) ≡ xs
unfolding insert_at delete_at
delete_at-insert_at zero c xs h = refl
delete_at-insert_at (suc p) c [] h = absurd (omega arith)
delete_at-insert_at (suc p) c (x ∷ xs) h =
    ap (λ ys. x ∷ ys) (delete_at-insert_at p c xs (omega arith))

shift_up-outside :
    (n i j : ℕ) (mem : Memory)
    → n ≤ i
    → (j ≤ i - n) ⊎ (i < j)
    → get_or (shift_up n i mem) j 0 ≡ get_or mem j 0
unfolding shift_up
shift_up-outside zero i j mem h o = refl
shift_up-outside (suc n) i j mem h o =
    shift_up-outside n (i - 1) j (set mem i (get_or mem (i - 1) 0)) (omega arith) (ground arith)
    ∙ get_or-set_ne mem i j (get_or mem (i - 1) 0) 0 (ground arith)

shift_up-inside :
    (n i j : ℕ) (mem : Memory)
    → n ≤ i
    → i < length mem
    → i - n < j
    → j ≤ i
    → get_or (shift_up n i mem) j 0 ≡ get_or mem (j - 1) 0
unfolding shift_up
shift_up-inside zero i j mem h fits lo hi = absurd (omega arith)
shift_up-inside (suc n) i j mem h fits lo hi =
    let moved = set mem i (get_or mem (i - 1) 0) in
    elim (Bool-cases (j == i)) [
      | inl e ↦
          let same : i ≡ j = ground arith in
          shift_up-outside n (i - 1) j moved (omega arith) (inr (omega arith))
          ∙ ap (λ k. get_or moved k 0) (sym same)
          ∙ get_or-set_self mem i (get_or mem (i - 1) 0) 0 fits
          ∙ ap (λ k. get_or mem (k - 1) 0) same
      | inr n_ ↦
          let below : j < i = ground arith in
          shift_up-inside n (i - 1) j moved (omega arith)
            (omega (arith, length-set mem i (get_or mem (i - 1) 0))) (omega arith) (omega arith)
          ∙ get_or-set_ne mem i (j - 1) (get_or mem (i - 1) 0) 0 (omega arith)
    ]

-- The places of the array when `c` has been put at `p`.
typed_place :
    (c n p k : ℕ) (mem : Memory)
    → p ≤ n
    → n < length mem
    → k ≤ n
    → get_or (set (shift_up (n - p) n mem) p c) k 0 ≡ get_or (insert_at p c (take n mem)) k 0
typed_place c n p k mem h fits le =
    let up = shift_up (n - p) n mem in
    let size : length (take n mem) ≡ n = length-take n mem ∙ omega arith in
    let all : length up ≡ length mem = length-shift_up (n - p) n mem in
    elim (order k p) [
      | inl before ↦
          get_or-set_ne up p k c 0 (omega arith)
          ∙ shift_up-outside (n - p) n k mem (omega arith) (inl (omega arith))
          ∙ sym (get_or-take n k mem (omega arith))
          ∙ sym (insert_at-before p c (take n mem) k (omega arith) before)
      | inr (inl same) ↦
          ap (λ j. get_or (set up p c) j 0) same
          ∙ get_or-set_self up p c 0 (omega arith)
          ∙ sym (insert_at-here p c (take n mem) (omega arith))
          ∙ ap (λ j. get_or (insert_at p c (take n mem)) j 0) (sym same)
      | inr (inr behind) ↦
          get_or-set_ne up p k c 0 (omega arith)
          ∙ shift_up-inside (n - p) n k mem (omega arith) fits (omega arith) le
          ∙ sym (get_or-take n (k - 1) mem (omega arith))
          ∙ sym (insert_at-behind p c (take n mem) k (omega arith) behind)
    ]
  where
    order : (k p : ℕ) → (k < p) ⊎ ((k ≡ p) ⊎ (p < k))
    order k p = omega arith

typed_text :
    (c n p : ℕ) (mem : Memory)
    → p ≤ n
    → n < length mem
    → take (n + 1) (set (shift_up (n - p) n mem) p c) ≡ insert_at p c (take n mem)
typed_text c n p mem h fits =
    let put = set (shift_up (n - p) n mem) p c in
    let all : length put ≡ length mem =
      length-set (shift_up (n - p) n mem) p c ∙ length-shift_up (n - p) n mem in
    let size : length (take (n + 1) put) ≡ n + 1 = length-take (n + 1) put ∙ omega arith in
    same_list (take (n + 1) put) (insert_at p c (take n mem))
      (omega (arith, length-take n mem, length-insert_at p c (take n mem)))
      (λ k lt.
        get_or-take (n + 1) k put (omega arith) ∙ typed_place c n p k mem h fits (omega arith))

-- A character typed where there is room is inserted into the text at the cursor, and the cursor
-- moves behind it.
pub cmd_append-insert_at :
    (c : ℕ) (e : Editor)
    → IsValid e
    → e.cmdlen < 127
    → (text (cmd_append c e) ≡ insert_at e.cmdpos c (text e))
      × ((cmd_append c e).cmdpos ≡ e.cmdpos + 1)
unfolding cmd_append
cmd_append-insert_at c e v room =
    let short : leb 127 e.cmdlen ≡ false = ground arith in
    rw short (typed_text c e.cmdlen e.cmdpos e.cmd v.pos_in (omega (arith, v.cmd_size)), refl)

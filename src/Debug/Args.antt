-- ===== src/Debug/Args.antt =====
-- `parse_args` of debug.c. A command is the list of its characters up to the NUL.
use mox_boot_builder.Prelude.{
  ℕ, zero, suc, ◌+◌, ◌≤◌, ◌<◌, ◌≡◌, ◌⊎◌, inl, inr, refl, sym, ap, ◌∙◌, arith, true, false,
  Bool-cases, Option, none, some, List, [], ◌∷◌, length, ◌==◌, if◌then◌else◌,
}

pub skip_spaces : List ℕ → List ℕ
skip_spaces [] = []
skip_spaces (c ∷ p) = if c == b' ' then skip_spaces p else c ∷ p

-- `while (*p && *p != ' ') ++p;`: the characters passed, and where `p` is then.
pub word : List ℕ → List ℕ × List ℕ
word [] = ([], [])
word (c ∷ p) = let (w, rest) = word p in if c == b' ' then ([], c ∷ p) else (c ∷ w, rest)

-- A round of the outer loop of `parse_args` behind a word, after `argc` arguments before it; `loop`
-- are the rounds that follow, and `none` is the return of -1.
pub next_args : (List ℕ → Option (List (List ℕ))) → ℕ → List ℕ → List ℕ → Option (List (List ℕ))
next_args loop argc w [] = some (w ∷ [])
next_args loop argc w (_ ∷ after) =
    if suc argc == 32
    then none
    else elim (loop (skip_spaces after)) [ none ↦ none | some ws ↦ some (w ∷ ws) ]

-- The outer loop, with fuel for the words.
pub args_loop : ℕ → ℕ → List ℕ → Option (List (List ℕ))
args_loop zero argc p = none
args_loop (suc fuel) argc [] = some []
args_loop (suc fuel) argc (c ∷ p) =
    next_args (args_loop fuel (suc argc)) argc (word (c ∷ p)).0 (word (c ∷ p)).1

-- `parse_args`: the arguments. A round uses up a character at least.
unfoldable pub parse_args : List ℕ → Option (List (List ℕ))
unfolding args_loop next_args word skip_spaces
parse_args work = args_loop (suc (length work)) 0 (skip_spaces work)

-- The words of a text, each as long as can be: a description character by character.
abbrev prepend : ℕ → List ℕ → List (List ℕ) → List (List ℕ)
prepend c [] ws = (c ∷ []) ∷ ws
prepend c (d ∷ p) [] = (c ∷ []) ∷ []
prepend c (d ∷ p) (w ∷ ws) = if d == b' ' then (c ∷ []) ∷ w ∷ ws else (c ∷ w) ∷ ws

pub words : List ℕ → List (List ℕ)
words [] = []
words (c ∷ p) = if c == b' ' then words p else prepend c p (words p)

words-skip_spaces : (p : List ℕ) → words (skip_spaces p) ≡ words p
unfolding words skip_spaces
words-skip_spaces [] = refl
words-skip_spaces (c ∷ p) = ground (arith, words-skip_spaces p)

word-cons : (c : ℕ) (p : List ℕ) → (c == b' ') ≡ false → word (c ∷ p) ≡ (c ∷ (word p).0, (word p).1)
unfolding word
word-cons c p h = rw h

word-space : (d : ℕ) (p : List ℕ) → (d == b' ') ≡ true → word (d ∷ p) ≡ ([], d ∷ p)
unfolding word
word-space d p h = rw h

words-cons : (c : ℕ) (p : List ℕ) → (c == b' ') ≡ false → words (c ∷ p) ≡ prepend c p (words p)
unfolding words
words-cons c p h = rw h

words-space : (d : ℕ) (p : List ℕ) → (d == b' ') ≡ true → words (d ∷ p) ≡ words p
unfolding words
words-space d p h = rw h

prepend-space :
    (c d : ℕ) (p : List ℕ) (ws : List (List ℕ))
    → (d == b' ') ≡ true
    → prepend c (d ∷ p) ws ≡ (c ∷ []) ∷ ws
prepend-space c d p [] h = refl
prepend-space c d p (w ∷ ws) h = rw h

prepend-cons :
    (c d : ℕ) (p w : List ℕ) (ws : List (List ℕ))
    → (d == b' ') ≡ false
    → prepend c (d ∷ p) (w ∷ ws) ≡ (c ∷ w) ∷ ws
prepend-cons c d p w ws h = rw h

-- A text that does not begin with a space is its first word and what follows.
words-word :
    (c : ℕ) (p : List ℕ)
    → (c == b' ') ≡ false
    → words (c ∷ p) ≡ (word (c ∷ p)).0 ∷ words (word (c ∷ p)).1
words-word c [] h = rw (words-cons c [] h, word-cons c [] h) empty
  where
    empty : prepend c [] (words []) ≡ (c ∷ (word []).0) ∷ words (word []).1
    empty = unfold words in unfold word in refl
words-word c (d ∷ p) h = words-cons c (d ∷ p) h ∙ elim (Bool-cases (d == b' ')) [
  | inl e ↦
      prepend-space c d p (words (d ∷ p)) e
      ∙ sym (
          ap first (
            word-cons c (d ∷ p) h
            ∙ ap (λ (x : List ℕ × List ℕ). (c ∷ x.0, x.1)) (word-space d p e)))
  | inr e ↦
      ap (prepend c (d ∷ p)) (words-word d p e)
      ∙ prepend-cons c d p (word (d ∷ p)).0 (words (word (d ∷ p)).1) e
      ∙ sym (ap first (word-cons c (d ∷ p) h))
]
  where
    first : List ℕ × List ℕ → List (List ℕ)
    first x = x.0 ∷ words x.1

length-word : (p : List ℕ) → length (word p).1 ≤ length p
unfolding word
length-word [] = omega arith
length-word (c ∷ p) = ground (arith, length-word p)

length-skip_spaces : (p : List ℕ) → length (skip_spaces p) ≤ length p
unfolding skip_spaces
length-skip_spaces [] = omega arith
length-skip_spaces (c ∷ p) = ground (arith, length-skip_spaces p)

-- What parsing a text gives, after `argc` arguments.
abbrev Parses : ℕ → List (List ℕ) → Option (List (List ℕ)) → Type 0
Parses argc ws r =
    ((r ≡ none) × (32 ≤ argc + length ws)) ⊎ ((r ≡ some ws) × (argc + length ws ≤ 32))

Starts : List ℕ → Type 0
Starts [] = Unit
Starts (c ∷ p) = (c == b' ') ≡ false

skip_spaces-Starts : (p : List ℕ) → Starts (skip_spaces p)
unfolding skip_spaces Starts
skip_spaces-Starts [] = tt
skip_spaces-Starts (c ∷ p) = elim (Bool-cases (c == b' ')) [
  | inl e ↦ rw e (skip_spaces-Starts p)
  | inr e ↦ rw e e
]

Stops : List ℕ → Type 0
Stops [] = Unit
Stops (c ∷ p) = (c == b' ') ≡ true

word-Stops : (p : List ℕ) → Stops (word p).1
unfolding word Stops
word-Stops [] = tt
word-Stops (c ∷ p) = elim (Bool-cases (c == b' ')) [ inl e ↦ rw e e | inr e ↦ rw e (word-Stops p) ]

-- A word uses up a character at least.
length-word_cons : (c : ℕ) (p : List ℕ) → (c == b' ') ≡ false → length (word (c ∷ p)).1 ≤ length p
length-word_cons c p h = rw (word-cons c p h) (length-word p)

next_args-Parses :
    (loop : List ℕ → Option (List (List ℕ))) (argc : ℕ) (w rest : List ℕ)
    → Stops rest
    → argc < 32
    → ((p : List ℕ)
        → Starts p
        → length p < length rest
        → suc argc < 32
        → Parses (suc argc) (words p) (loop p))
    → Parses argc (w ∷ words rest) (next_args loop argc w rest)
unfolding next_args Stops
next_args-Parses loop argc w [] h lt ih = inr (unfold words in refl, unfold words in omega arith)
next_args-Parses loop argc w (d ∷ after) h lt ih =
    let p = skip_spaces after in
    let same : words p ≡ words (d ∷ after) =
      words-skip_spaces after ∙ sym (words-space d after h) in
    elim (Bool-cases (suc argc == 32)) [
      | inl e ↦ rw e (inl (refl, ground arith))
      | inr e ↦
          let r =
            ih p (skip_spaces-Starts after) (omega (arith, length-skip_spaces after))
              (ground arith) in
          let size : length (words p) ≡ length (words (d ∷ after)) = ap (λ x. length x) same in
          rw e (elim r [
            | inl (fails, many) ↦ inl (rw fails, omega (arith, size, many))
            | inr (works, few) ↦
                inr (rw works (ap (λ ws. some (w ∷ ws)) same), omega (arith, size, few))
          ])
    ]

args_loop-Parses :
    (fuel argc : ℕ) (p : List ℕ)
    → Starts p
    → length p < fuel
    → argc < 32
    → Parses argc (words p) (args_loop fuel argc p)
unfolding args_loop
args_loop-Parses zero argc p h f lt = absurd (omega arith)
args_loop-Parses (suc fuel) argc [] h f lt = inr (unfold words in refl, unfold words in omega arith)
args_loop-Parses (suc fuel) argc (c ∷ p) h f lt = rw (words-word c p first) (
    next_args-Parses (args_loop fuel (suc argc)) argc (word (c ∷ p)).0 (word (c ∷ p)).1
      (word-Stops (c ∷ p)) lt
      (λ q hq lq l.
        args_loop-Parses fuel (suc argc) q hq (omega (arith, length-word_cons c p first)) l))
  where
    first : (c == b' ') ≡ false
    first = unfold Starts in h

-- `parse_args` finds the words of the command: it reports too many arguments only if there are 32
-- words or more, and otherwise gives all of them, at most 32, which is what its array holds.
pub parse_args-words :
    (work : List ℕ)
    → ((parse_args work ≡ none) × (32 ≤ length (words work)))
      ⊎ ((parse_args work ≡ some (words work)) × (length (words work) ≤ 32))
unfolding parse_args
parse_args-words work =
    let r =
      args_loop-Parses (suc (length work)) 0 (skip_spaces work) (skip_spaces-Starts work)
        (omega (arith, length-skip_spaces work)) (omega arith) in
    let all = words-skip_spaces work in
    let size : length (words (skip_spaces work)) ≡ length (words work) = ap (λ x. length x) all in
    elim r [
      | inl (fails, many) ↦ inl (fails, omega (arith, size, many))
      | inr (works, few) ↦ inr (works ∙ ap some all, omega (arith, size, few))
    ]

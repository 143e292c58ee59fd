-- ===== src/Tim/Trust.antt =====
-- On a board that is fused as trusted, tim.c uses only headers with a valid signature.
use mox_boot_builder.Prelude.{
  ℕ, ◌≡◌, ◌⊎◌, inl, inr, refl, subst, ap, ◌∙◌, arith, Bool, true, false, not, ◌||◌, Option, none,
  some, List, ◌==◌, ◌!=◌, leb, ltb, if◌then◌else◌, Bool-cases, Option-cases, ◌%◌, ◌<◌, replicate,
}
use mox_boot_builder.Tim.{ImgInfo, Tim, timh_id, timn_id, Outcome, done, dies, fault, ◌>>=◌}
use mox_boot_builder.Tim.Parse.{tim_find_image, tim_size, find_timn_entry, find_respkg, timn_entry}
use mox_boot_builder.Tim.Check.{
  Board, same_words, is_board_trusted, otp_words, check_signature, check_tim, check_trust, is_wrong,
  use_timn, load_timn, use_timh, use_tim, read_found, read_checked, load_tim, load_image,
  check_image_hash, is_hashalg,
}

done-injective : {A : Type 0} {a b : A} → done a ≡ done b → a ≡ b
done-injective h = cc

bind-done :
    {A B : Type 0} (m : Outcome A) (k : A → Outcome B) {b : B}
    → (m >>= k) ≡ done b
    → (a : A) × (m ≡ done a) × (k a ≡ done b)
bind-done (done a) k h = (a, refl, h)
bind-done dies k h = cc
bind-done fault k h = cc

if-done :
    {A : Type 0} (b : Bool) (m k : Outcome A) {a : A}
    → (if b then m else k) ≡ done a
    → ((b ≡ true) × (m ≡ done a)) ⊎ ((b ≡ false) × (k ≡ done a))
if-done true m k h = inl (refl, h)
if-done false m k h = inr (refl, h)

module _ {K : Type 0} (board : Board K) where
  -- The header's key is the one whose hash is in the fuses, and its signature verifies.
  pub record IsSigned (t : Tim K) : Type 0 where
    pub otp : List ℕ
    pub fuses : otp_words board 4 0 ≡ done otp
    pub key : same_words (board.key_hash t.platds.pub_key) otp ≡ true
    pub signature : board.ecdsa_verify t.platds.pub_key t.platds.sig (board.tim_hash t) ≡ true

  check_signature-IsSigned : (t : Tim K) → check_signature board t ≡ done true → IsSigned t
  unfolding check_signature
  check_signature-IsSigned t h =
      elim (if-done (t.platds.dsalg != 6 || t.platds.hashalg != 32 || t.platds.keysize != 521)
        (done false) (by_key t) h) [
          | inl (e, h1) ↦ cc
          | inr (e, h1) ↦
              let (otp, fuses, h2) = bind-done (otp_words board 4 0) (by_otp t) h1 in
              elim (if-done (same_words (board.key_hash t.platds.pub_key) otp) (verdict t)
                (done false) h2) [
                  | inl (key, h3) ↦ record {
                    otp = otp;
                    fuses = fuses;
                    key = key;
                    signature = done-injective h3;
                  }
                  | inr (e2, h3) ↦ cc
                ]
        ]
    where
      verdict : Tim K → Outcome Bool
      verdict t = done (board.ecdsa_verify t.platds.pub_key t.platds.sig (board.tim_hash t))

      by_otp : Tim K → List ℕ → Outcome Bool
      by_otp t otp =
          if same_words (board.key_hash t.platds.pub_key) otp then verdict t else done false

      by_key : Tim K → Outcome Bool
      by_key t = otp_words board 4 0 >>= by_otp t

  -- What a header that passes `check_tim` on a trusted board is.
  pub record IsGenuine (t : Tim K) (wanted : ℕ) : Type 0 where
    pub identifier : t.hdr.identifier ≡ wanted
    pub marked : (t.hdr.trusted != 0) ≡ true
    pub small : tim_size t.hdr < 0x2000
    pub signed : IsSigned t

  check_tim-IsGenuine :
      (t : Tim K) (wanted : ℕ)
      → is_board_trusted board ≡ done true
      → check_tim board t wanted ≡ done true
      → IsGenuine t wanted
  unfolding check_tim
  check_tim-IsGenuine t wanted trusted h =
      elim (if-done (leb 0x2000 (tim_size t.hdr)) (done false) (second t) h) [
        | inl (e, h1) ↦ cc
        | inr (e1, h1) ↦ elim (if-done (t.hdr.sizeofreserved % 4 != 0) dies (third t) h1) [
          | inl (e, h2) ↦ cc
          | inr (e2, h2) ↦ elim (if-done (is_wrong board t wanted) (done false) (last t) h2) [
            | inl (e, h3) ↦ cc
            | inr (e3, h3) ↦
                let h4 = subst (λ m. (m >>= check_trust board t) ≡ done true) trusted h3 in
                elim (if-done (not (t.hdr.trusted != 0)) (done false) (check_signature board t)
                  h4) [
                    | inl (e, h5) ↦ cc
                    | inr (e4, h5) ↦ record {
                      identifier = ground arith;
                      marked = ground arith;
                      small = ground arith;
                      signed = check_signature-IsSigned t h5;
                    }
                  ]
          ]
        ]
      ]
    where
      last : Tim K → Outcome Bool
      last t = is_board_trusted board >>= check_trust board t

      third : Tim K → Outcome Bool
      third t = if is_wrong board t wanted then done false else last t

      second : Tim K → Outcome Bool
      second t = if t.hdr.sizeofreserved % 4 != 0 then dies else third t

  -- On a trusted board, the header that `load_tim` returns is a TIMN that is marked as trusted, is
  -- below 8 KiB, carries a key whose hash is in the fuses and a signature that verifies under it;
  -- and the TIMH that led to it has the same properties.
  pub load_tim-IsGenuine :
      (t : Tim K)
      → is_board_trusted board ≡ done true
      → load_tim board ≡ done (some t)
      → IsGenuine (board.read_tim 0) timh_id × IsGenuine t timn_id
  unfolding load_tim
  load_tim-IsGenuine t trusted h =
      let timh = board.read_tim 0 in
      let (good, passed, h1) = bind-done (check_tim board timh timh_id) (use_timh board timh) h in
      elim (if-done (not good) (done none) (by_mark timh) h1) [
        | inl (e, h2) ↦ cc
        | inr (e, h2) ↦
            let right : good ≡ true = ground arith in
            let first = check_tim-IsGenuine timh timh_id trusted (passed ∙ ap done right) in
            elim (if-done (timh.hdr.trusted == 0) (done (some timh)) (by_entry timh) h2) [
              | inl (e2, h3) ↦ absurd (unmarked timh e2 first.marked)
              | inr (e2, h3) ↦
                  let (entry, found, h4) = bind-done (find_timn_entry timh) (load_timn board) h3 in
                  elim (if-done (entry == 0 || leb 0x20000 entry) (done none) (by_timn entry) h4) [
                    | inl (e3, h5) ↦ cc
                    | inr (e3, h5) ↦
                        let timn = board.read_tim entry in
                        let (fine, passed2, h6) =
                          bind-done (check_tim board timn timn_id) (use_timn board timn) h5 in
                        elim (if-done fine (done (some timn)) (done none) h6) [
                          | inl (e4, h7) ↦
                              let second =
                                check_tim-IsGenuine timn timn_id trusted (passed2 ∙ ap done e4) in
                              (first, subst (λ x. IsGenuine x timn_id) (cc) second)
                          | inr (e4, h7) ↦ cc
                        ]
                  ]
            ]
      ]
    where
      unmarked :
          (timh : Tim K) → (timh.hdr.trusted == 0) ≡ true → (timh.hdr.trusted != 0) ≡ true → ⊥
      unmarked timh e f = ground arith

      by_timn : ℕ → Outcome (Option (Tim K))
      by_timn entry =
          check_tim board (board.read_tim entry) timn_id >>= use_timn board (board.read_tim entry)

      by_entry : Tim K → Outcome (Option (Tim K))
      by_entry timh = find_timn_entry timh >>= load_timn board

      by_mark : Tim K → Outcome (Option (Tim K))
      by_mark timh = if timh.hdr.trusted == 0 then done (some timh) else by_entry timh

  -- A signed TIMH with no reserved area makes `load_tim` read through a null pointer, on a trusted
  -- board.
  pub load_tim-faults :
      is_board_trusted board ≡ done true
      → check_tim board (board.read_tim 0) timh_id ≡ done true
      → (board.read_tim 0).hdr.sizeofreserved ≡ 0
      → load_tim board ≡ fault
  unfolding load_tim find_timn_entry find_respkg timn_entry
  load_tim-faults trusted passed empty =
      let timh = board.read_tim 0 in
      let marked : (timh.hdr.trusted == 0) ≡ false =
        not_zero timh.hdr.trusted (check_tim-IsGenuine timh timh_id trusted passed).marked in
      let short : ltb timh.hdr.sizeofreserved 8 ≡ true = ground arith in rw (passed, marked, short)
    where
      not_zero : (x : ℕ) → (x != 0) ≡ true → (x == 0) ≡ false
      not_zero x h = ground arith

module _ {K : Type 0} (board : Board K) where
  -- The image is stored without a hash, or its hash is that of the bytes that were read.
  abbrev pub HashFits : ImgInfo → List ℕ → Type 0
  HashFits img buf =
      (same_words img.hash (replicate 16 0) ≡ true)
      ⊎ ((digest : List ℕ) × (board.hw_hash img.hashalg buf img.size ≡ some digest)
          × (same_words img.hash digest ≡ true))

  check_image_hash-HashFits :
      (img : ImgInfo) (buf : List ℕ) → check_image_hash board img buf ≡ true → HashFits img buf
  unfolding check_image_hash
  check_image_hash-HashFits img buf h = elim (Bool-cases (same_words img.hash (replicate 16 0))) [
    | inl e ↦ inl e
    | inr e ↦ inr (elim (Option-cases (board.hw_hash img.hashalg buf img.size)) [
      | inl n ↦ absurd (ground arith)
      | inr (d, p) ↦ (d, p, ground arith)
    ])
  ]

  -- On a trusted board, the bytes that `load_image` returns are those at the place that a genuine
  -- TIMN names for the image, and they have the hash that this TIMN names, unless the TIMN names no
  -- hash (all zeros).
  pub load_image-IsGenuine :
      (wanted : ℕ) {buf : List ℕ}
      → is_board_trusted board ≡ done true
      → load_image board wanted ≡ done (some buf)
      → (t : Tim K) × (img : ImgInfo) × IsGenuine board t timn_id
        × (tim_find_image t wanted ≡ some img)
        × (buf ≡ board.read_image img.flashentryaddr img.size)
        × HashFits img buf
  unfolding load_image
  load_image-IsGenuine wanted {buf} trusted h =
      let (found, loaded, h1) = bind-done (load_tim board) (use_tim board wanted) h in
      from_tim found loaded h1
    where
      from_img :
          (img : ImgInfo)
          → read_checked board img ≡ done (some buf)
          → (buf ≡ board.read_image img.flashentryaddr img.size) × HashFits img buf
      from_img img h =
          let bytes = board.read_image img.flashentryaddr img.size in
          let checked : Outcome (Option (List ℕ)) =
            if check_image_hash board img bytes then done (some bytes) else done none in
          elim (if-done (not (is_hashalg board img.hashalg)) (done none) checked h) [
            | inl (e, h1) ↦ cc
            | inr (e, h1) ↦
                elim (if-done (check_image_hash board img bytes) (done (some bytes)) (done none)
                  h1) [
                    | inl (e2, h2) ↦
                        let same : buf ≡ bytes = cc in
                        (same, rw same (check_image_hash-HashFits img bytes e2))
                    | inr (e2, h2) ↦ cc
                  ]
          ]

      from_tim :
          (found : Option (Tim K))
          → load_tim board ≡ done found
          → use_tim board wanted found ≡ done (some buf)
          → (t : Tim K) × (img : ImgInfo) × IsGenuine board t timn_id
            × (tim_find_image t wanted ≡ some img)
            × (buf ≡ board.read_image img.flashentryaddr img.size)
            × HashFits img buf
      from_tim none loaded h = cc
      from_tim (some t) loaded h = elim (Option-cases (tim_find_image t wanted)) [
        | inl e ↦
            let k : ◌≡◌ {A = Outcome (Option (List ℕ))} (done none) (done (some buf)) =
              subst (λ o. read_found board o ≡ done (some buf)) e h in
            cc
        | inr (img, e) ↦
            let r = from_img img (subst (λ o. read_found board o ≡ done (some buf)) e h) in
            (t, img, (load_tim-IsGenuine board t trusted loaded).1, e, r.0, r.1)
      ]

-- ===== src/Tim/Tests.antt =====
-- tim.c on a sample board that is fused as trusted.
use mox_boot_builder.Prelude.{
  ℕ, ◌≡◌, refl, true, some, List, [], ◌∷◌, ◌==◌, if◌then◌else◌, replicate,
}
use mox_boot_builder.Tim.{
  ImgInfo, ResPkg, Tim, done, fault, timh_id, timn_id, res_id, imap_id, cskt_id, bootfs_spinor,
}
use mox_boot_builder.Tim.Parse.{
  find_image, tim_find_image, tim_size, find_pkg, find_respkg, timn_entry, find_timn_entry,
}
use mox_boot_builder.Tim.Check.{
  Board, same_words, ecc_3bit_majority, is_board_trusted, otp_words, check_signature,
  describes_itself, check_tim, load_tim, check_image_hash, load_image,
}
use mox_boot_builder.Tim.Trust.{IsGenuine, HashFits, load_tim-faults, load_image-IsGenuine}

abbrev image : ℕ → ℕ → ℕ → ImgInfo
image i addr n = record {
  id = i;
  flashentryaddr = addr;
  size = n;
  hashalg = 32;
  hash = replicate 16 5;
  encalg = 0;
}

-- A header with the given images, reserved area and identifier.
abbrev header : ℕ → List ImgInfo → ℕ → ℕ → List ResPkg → Tim ℕ
header i imgs n reserved packages = record {
  hdr = record {
    identifier = i;
    trusted = 1;
    bootflashsign = bootfs_spinor;
    numimages = n;
    numkeys = 0;
    sizeofreserved = reserved;
  };
  images = imgs;
  reshdr_id = res_id;
  reshdr_pkgs = 1;
  pkgs = packages;
  platds = record { dsalg = 6; hashalg = 32; keysize = 521; pub_key = 0; sig = 0 };
}

abbrev image_map : ResPkg
image_map = record {
  id = imap_id;
  size = 32;
  nmaps = 1;
  map = record {
    id = cskt_id;
    type = 0;
    flashentryaddr0 = 0x1000;
    flashentryaddr1 = 0;
    partitionnumber = 0;
  };
}

abbrev timh : Tim ℕ
timh = header timh_id (image timh_id 0 1016 ∷ []) 1 40 (image_map ∷ [])

abbrev timn : Tim ℕ
timn = header timn_id (image timn_id 0x1000 1084 ∷ image 7 0x2000 4 ∷ []) 2 0 []

-- Row 1 says that the board is trusted, the hash of the key is 0.
abbrev board_with : Tim ℕ → Board ℕ
board_with first = record {
  efuse_row = λ row. if row == 1 then some 0x70 else some 0;
  read_tim = λ offset. if offset == 0 then first else timn;
  read_image = λ offset n. replicate n offset;
  key_hash = λ k. replicate 8 0;
  tim_hash = λ t. replicate 16 0;
  ecdsa_verify = λ k s h. true;
  hw_hash = λ alg buf n. some (replicate 16 5);
}

abbrev board : Board ℕ
board = board_with timh

-- A TIMH without a reserved area.
abbrev empty_timh : Tim ℕ
empty_timh = header timh_id (image timh_id 0 976 ∷ []) 1 0 []

board-trusted : is_board_trusted board ≡ done true
unfolding is_board_trusted ecc_3bit_majority
board-trusted = refl

empty-trusted : is_board_trusted (board_with empty_timh) ≡ done true
unfolding is_board_trusted ecc_3bit_majority
empty-trusted = refl

empty-passes : check_tim (board_with empty_timh) empty_timh timh_id ≡ done true
unfolding check_tim tim_size describes_itself tim_find_image find_image is_board_trusted
    ecc_3bit_majority check_signature otp_words same_words
empty-passes = refl

loaded_tim : load_tim board ≡ done (some timn)
unfolding load_tim check_tim tim_size describes_itself tim_find_image find_image is_board_trusted
    ecc_3bit_majority check_signature otp_words same_words find_timn_entry find_respkg find_pkg
    timn_entry
loaded_tim = refl

loaded_image : load_image board 7 ≡ done (some (replicate 4 0x2000))
unfolding load_image load_tim check_tim tim_size describes_itself tim_find_image find_image
    is_board_trusted ecc_3bit_majority check_signature otp_words same_words find_timn_entry
    find_respkg find_pkg timn_entry check_image_hash
loaded_image = refl

load_tim-faults_example : load_tim (board_with empty_timh) ≡ fault
load_tim-faults_example = load_tim-faults (board_with empty_timh) empty-trusted empty-passes refl

load_image-IsGenuine_example :
    (t : Tim ℕ) × (img : ImgInfo) × IsGenuine board t timn_id
    × (tim_find_image t 7 ≡ some img)
    × (replicate 4 0x2000 ≡ board.read_image img.flashentryaddr img.size)
    × HashFits board img (replicate 4 0x2000)
load_image-IsGenuine_example = load_image-IsGenuine board 7 board-trusted loaded_image

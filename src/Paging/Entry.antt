-- ===== src/Paging/Entry.antt =====
-- `page_t` of IcarusOS/paging.h: the fields of the word, and assignments to them, which cut the value
-- to the field's width and leave the other fields alone.
use cmsi.Base.{ℕ, ◌+◌, ◌-◌, ◌*◌, ◌/◌, ◌%◌, ◌^◌, ◌<◌, ◌≡◌, arith}

abbrev pub present : ℕ → ℕ
present w = w % 2

abbrev pub rw_bit : ℕ → ℕ
rw_bit w = w / 2 % 2

abbrev pub user : ℕ → ℕ
user w = w / 4 % 2

abbrev pub accessed : ℕ → ℕ
accessed w = w / 8 % 2

abbrev pub dirty : ℕ → ℕ
dirty w = w / 16 % 2

-- `unused`, of 7 bits
abbrev pub reserved : ℕ → ℕ
reserved w = w / 32 % 128

abbrev pub frame : ℕ → ℕ
frame w = w / 0x1000 % 2 ^ 20

unfoldable pub set_present : ℕ → ℕ → ℕ
set_present w v = w - present w + v % 2

unfoldable pub set_rw : ℕ → ℕ → ℕ
set_rw w v = w - rw_bit w * 2 + v % 2 * 2

unfoldable pub set_user : ℕ → ℕ → ℕ
set_user w v = w - user w * 4 + v % 2 * 4

unfoldable pub set_accessed : ℕ → ℕ → ℕ
set_accessed w v = w - accessed w * 8 + v % 2 * 8

unfoldable pub set_dirty : ℕ → ℕ → ℕ
set_dirty w v = w - dirty w * 16 + v % 2 * 16

unfoldable pub set_frame_field : ℕ → ℕ → ℕ
set_frame_field w v = w - frame w * 0x1000 + v % 2 ^ 20 * 0x1000

-- An assignment to a field of a word gives a word.
pub set_present-lt : (w v : ℕ) → w < 2 ^ 32 → set_present w v < 2 ^ 32
unfolding set_present
set_present-lt w v h = omega arith

pub set_rw-lt : (w v : ℕ) → w < 2 ^ 32 → set_rw w v < 2 ^ 32
unfolding set_rw
set_rw-lt w v h = omega arith

pub set_user-lt : (w v : ℕ) → w < 2 ^ 32 → set_user w v < 2 ^ 32
unfolding set_user
set_user-lt w v h = omega arith

pub set_frame_field-lt : (w v : ℕ) → w < 2 ^ 32 → set_frame_field w v < 2 ^ 32
unfolding set_frame_field
set_frame_field-lt w v h = omega arith

-- Two words with the same fields, and of 32 bits, are the same.
pub fields_injective :
    (v w : ℕ)
    → v < 2 ^ 32
    → w < 2 ^ 32
    → present v ≡ present w
    → rw_bit v ≡ rw_bit w
    → user v ≡ user w
    → accessed v ≡ accessed w
    → dirty v ≡ dirty w
    → reserved v ≡ reserved w
    → frame v ≡ frame w
    → v ≡ w
fields_injective v w hv hw a b c d e f g = omega arith

-- The word that `alloc_frame` leaves in a page whose fields were `w`.
unfoldable pub mapped : (w rw user idx : ℕ) → ℕ
mapped w rw user idx = set_frame_field (set_user (set_rw (set_present w 1) rw) user) idx

pub mapped_fields :
    (w rw user' idx : ℕ)
    → w < 2 ^ 32
    → idx < 2 ^ 20
    → (present (mapped w rw user' idx) ≡ 1)
      × (rw_bit (mapped w rw user' idx) ≡ rw % 2)
      × (user (mapped w rw user' idx) ≡ user' % 2)
      × (frame (mapped w rw user' idx) ≡ idx)
      × (accessed (mapped w rw user' idx) ≡ accessed w)
      × (dirty (mapped w rw user' idx) ≡ dirty w)
      × (reserved (mapped w rw user' idx) ≡ reserved w)
unfolding mapped set_present set_rw set_user set_frame_field
mapped_fields w rw user' idx h k = omega arith

-- ===== src/Keyboard/Keys.antt =====
-- The lock and shift keys after a sequence of scan codes.
use cmsi.Base.{ℕ, ◌+◌, ◌%◌, ◌≡◌, refl, arith, Bool, true, false, not, List, [], ◌∷◌}
use cmsi.Base.{◌==◌, if◌then◌else◌, ◌∙◌}
use cmsi.Keyboard.{Keyboard, convert_to_ascii}
use cmsi.Base.{ap}

-- The state after the codes.
unfoldable pub after_codes : List ℕ → Keyboard → Keyboard
after_codes [] kb = kb
after_codes (c ∷ cs) kb = after_codes cs (convert_to_ascii c kb).1

abbrev pub times : ℕ → List ℕ → ℕ
times x [] = 0
times x (c ∷ cs) = (if c == x then 1 else 0) + times x cs

-- Whether a key is down after the codes: the last of its two codes decides.
abbrev pub held : (press release : ℕ) → List ℕ → Bool → Bool
held press release [] down = down
held press release (c ∷ cs) down =
    held press release cs (if c == press then true else if c == release then false else down)

after_one :
    (c : ℕ) (kb : Keyboard)
    → ((convert_to_ascii c kb).1.cap_locks ≡ (if c == 0xba then not kb.cap_locks else kb.cap_locks))
      × ((convert_to_ascii c kb).1.shift_l
          ≡ (if c == 0x2a then true else if c == 0xaa then false else kb.shift_l))
      × ((convert_to_ascii c kb).1.shift_r
          ≡ (if c == 0x36 then true else if c == 0xb6 then false else kb.shift_r))
unfolding convert_to_ascii
after_one c kb = (ground arith, ground arith, ground arith)

toggled :
    (b t : Bool) (n : ℕ)
    → (if n % 2 == 0 then (if t then not b else b) else not (if t then not b else b))
      ≡ (if ((if t then 1 else 0) + n) % 2 == 0 then b else not b)
toggled true true n = ground arith
toggled true false n = ground arith
toggled false true n = ground arith
toggled false false n = ground arith

-- After any sequence of scan codes the lock has changed if it was released an odd number of times,
-- and each shift key is down if the last of its two codes was that of pressing it.
pub after_codes-keys :
    (cs : List ℕ) (kb : Keyboard)
    → ((after_codes cs kb).cap_locks
        ≡ (if times 0xba cs % 2 == 0 then kb.cap_locks else not kb.cap_locks))
      × ((after_codes cs kb).shift_l ≡ held 0x2a 0xaa cs kb.shift_l)
      × ((after_codes cs kb).shift_r ≡ held 0x36 0xb6 cs kb.shift_r)
unfolding after_codes
after_codes-keys [] kb = (refl, refl, refl)
after_codes-keys (c ∷ cs) kb =
    let (caps, left, right) = after_codes-keys cs (convert_to_ascii c kb).1 in
    let (caps₁, left₁, right₁) = after_one c kb in
    (
      caps
          ∙ ap (λ (b : Bool). if times 0xba cs % 2 == 0 then b else not b) caps₁
          ∙ toggled kb.cap_locks (c == 0xba) (times 0xba cs),
      left ∙ ap (held 0x2a 0xaa cs) left₁,
      right ∙ ap (held 0x36 0xb6 cs) right₁,
    )

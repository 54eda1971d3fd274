-- ===== src/Asteroids/RoundTrip.antt =====
-- What is encoded is decoded again.
use lobbylink.Base.{
  ℕ, ◌+◌, ◌-◌, ◌*◌, ◌/◌, ◌%◌, ◌^◌, ◌<◌, ◌≤◌, ◌≡◌, refl, sym, ap, ◌∙◌, min, Bool, true, false, List,
  [], ◌∷◌, ◌++◌, zero, suc, some, All, All-take, ltb, leb, length, take, drop, length-take,
  length-drop, arith,
}
use lobbylink.Base.Outcome.{ok}
use lobbylink.Base.Utf8.{from_utf8_lossy, IsUtf8, from_utf8_lossy-IsUtf8}
use lobbylink.Base.Words.{u32_to_be_bytes}
use lobbylink.Asteroids.{
  msg_state, max_bullets, name_max, Bullet, StateMsg, state, hit, clock, u16_to_be_bytes, flags_of,
  bullets_bytes, encode_state, encode_hit, encode_clock, Read, be_u16, bit, slice_from, read_state,
  long_enough, read_name, decode_state, decode_hit, decode_clock, decode,
}
use lobbylink.Asteroids.Reading.{IsBullet, index_at, be_f32_at, read_bullets_at, drop-drop}

-- The numbers of a message have the bits of their types.
pub record IsWire (m : StateMsg) : Type 0 where
  pub seq : m.seq < 2 ^ 16
  pub x : m.x < 2 ^ 32
  pub y : m.y < 2 ^ 32
  pub angle : m.angle < 2 ^ 32
  pub vx : m.vx < 2 ^ 32
  pub vy : m.vy < 2 ^ 32
  pub score : m.score < 2 ^ 32
  pub bullets : All IsBullet m.bullets

abbrev header : StateMsg → ℕ → List ℕ → List ℕ
header m n tail =
    (msg_state ∷ flags_of m.alive m.thrusting m.invuln ∷ u16_to_be_bytes m.seq)
    ++ (u32_to_be_bytes m.x
        ++ (u32_to_be_bytes m.y
            ++ (u32_to_be_bytes m.angle
                ++ (u32_to_be_bytes m.vx
                    ++ (u32_to_be_bytes m.vy ++ (u32_to_be_bytes m.score ++ (n ∷ tail)))))))

bit-flags_of :
    (a t i : Bool)
    → (bit (flags_of a t i) 0 ≡ a) × ((bit (flags_of a t i) 1 ≡ t) × (bit (flags_of a t i) 2 ≡ i))
unfolding flags_of
bit-flags_of true true true = (refl, (refl, refl))
bit-flags_of true true false = (refl, (refl, refl))
bit-flags_of true false true = (refl, (refl, refl))
bit-flags_of true false false = (refl, (refl, refl))
bit-flags_of false true true = (refl, (refl, refl))
bit-flags_of false true false = (refl, (refl, refl))
bit-flags_of false false true = (refl, (refl, refl))
bit-flags_of false false false = (refl, (refl, refl))

u16_round : (n : ℕ) → n < 2 ^ 16 → n / 2 ^ 8 % 256 * 2 ^ 8 + n % 256 ≡ n
u16_round n h = omega arith

-- The message that is read from the bytes of `m`, with other bullets and another name.
abbrev with_rest : StateMsg → List Bullet → List ℕ → StateMsg
with_rest m bullets name = record m { bullets = bullets; name = name }

read_state-header :
    (m : StateMsg) (n : ℕ) (tail : List ℕ) (bullets : List Bullet) (name : List ℕ)
    → IsWire m
    → read_state (header m n tail) bullets name ≡ ok (with_rest m bullets (from_utf8_lossy name))
unfolding read_state be_u16
read_state-header m n tail bullets name w =
    let d = header m n tail in
    let (alive, (thrusting, invuln)) = bit-flags_of m.alive m.thrusting m.invuln in
    rw (
      be_f32_at d 4 m.x _ w.x refl,
      be_f32_at d 8 m.y _ w.y refl,
      be_f32_at d 12 m.angle _ w.angle refl,
      be_f32_at d 16 m.vx _ w.vx refl,
      be_f32_at d 20 m.vy _ w.vy refl,
      be_f32_at d 24 m.score _ w.score refl,
      u16_round m.seq w.seq,
      alive,
      thrusting,
      invuln,
    )

take_all : (xs : List ℕ) → take (length xs) xs ≡ xs
take_all [] = refl
take_all (x ∷ xs) = ap (λ r. x ∷ r) (take_all xs)

-- What stands behind an offset tells how long the slice is.
length-drop_cons :
    (d : List ℕ) (o n : ℕ) (xs : List ℕ) → drop o d ≡ n ∷ xs → length d ≡ o + 1 + length xs
length-drop_cons d o n xs there =
    let size : length d - o ≡ suc (length xs) = sym (length-drop o d) ∙ ap length there in
    omega (arith, size)

slice_from_at :
    (d : List ℕ) (o n : ℕ) (name : List ℕ)
    → drop o d ≡ n ∷ name
    → ◌≡◌ {A = Read (List ℕ)} (slice_from d (o + 1) (length name)) (ok name)
unfolding slice_from
slice_from_at d o n name there =
    let size = length-drop_cons d o n name there in
    let fits : leb (o + 1 + length name) (length d) ≡ true = ground (arith, size) in
    rw (fits, drop-drop d o 1, there, take_all name)

read_name-header :
    (m : StateMsg) (n : ℕ) (tail : List ℕ) (o : ℕ) (bullets : List Bullet) (name : List ℕ)
    → IsWire m
    → drop o (header m n tail) ≡ length name ∷ name
    → read_name (header m n tail) o bullets
      ≡ ok (some (state (with_rest m bullets (from_utf8_lossy name))))
unfolding read_name long_enough
read_name-header m n tail o bullets name w there =
    let d = header m n tail in
    let size = length-drop_cons d o (length name) name there in
    let fits : ltb (length d) (o + 1 + length name) ≡ false = ground (arith, size) in
    rw (
      index_at d o 0 _ (length name) o there refl (omega arith),
      fits,
      slice_from_at d o (length name) name there,
      read_state-header m n tail bullets name w,
    )

decode-header :
    (m : StateMsg) (bullets : List Bullet) (name : List ℕ)
    → IsWire m
    → All IsBullet bullets
    → decode (header m (length bullets) (bullets_bytes bullets ++ (length name ∷ name)))
      ≡ ok (some (state (with_rest m bullets (from_utf8_lossy name))))
unfolding decode decode_state long_enough
decode-header m bullets name w small =
    let tail = bullets_bytes bullets ++ (length name ∷ name) in
    let d = header m (length bullets) tail in
    let (read, left) = read_bullets_at bullets d 29 (length name ∷ name) small refl in
    let size = length-drop_cons d (29 + length bullets * 16) (length name) name left in
    let long : ltb (length d) 29 ≡ false = ground (arith, size) in
    let longer : ltb (length d) (29 + length bullets * 16 + 1) ≡ false = ground (arith, size) in
    rw (
      long,
      longer,
      read,
      read_name-header m (length bullets) tail (29 + length bullets * 16) bullets name w left,
    )

abbrev no_bullets : List Bullet
no_bullets = []

take-min : (k : ℕ) (xs : List Bullet) → take (min (length xs) k) xs ≡ take k xs
take-min zero xs = let here : min (length xs) 0 ≡ 0 = omega arith in ap (λ i. take i xs) here
take-min (suc k) [] = let here : min 0 (suc k) ≡ 0 = omega arith in ap (λ i. take i no_bullets) here
take-min (suc k) (x ∷ xs) =
    let here : min (suc (length xs)) (suc k) ≡ suc (min (length xs) k) = omega arith in
    ap (λ i. take i (x ∷ xs)) here ∙ ap (λ r. x ∷ r) (take-min k xs)

encode_state-header :
    (m : StateMsg)
    → let bullets = take max_bullets m.bullets in
      let name = take name_max m.name in
      encode_state m ≡ header m (length bullets) (bullets_bytes bullets ++ (length name ∷ name))
unfolding encode_state
encode_state-header m =
    let bullets = take max_bullets m.bullets in
    let name = take name_max m.name in
    let count : min (length m.bullets) max_bullets % 256 ≡ length bullets =
      omega (arith, length-take max_bullets m.bullets) in
    let name_len : length name % 256 ≡ length name = omega (arith, length-take name_max m.name) in
    rw (take-min max_bullets m.bullets, count, name_len)

-- A state message that was encoded is decoded to itself, up to what the format cuts off: of the
-- bullets the first eight are left, and of the name its first 24 bytes, in which bytes that are no
-- whole characters are replaced; the numbers must have the bits of their types.
pub decode-encode_state :
    (m : StateMsg)
    → IsWire m
    → decode (encode_state m)
      ≡ ok (
          some (
            state (record m {
              bullets = take max_bullets m.bullets;
              name = from_utf8_lossy (take name_max m.name);
            })))
decode-encode_state m w =
    ap decode (encode_state-header m)
    ∙ decode-header m (take max_bullets m.bullets) (take name_max m.name) w
        (All-take IsBullet max_bullets m.bullets w.bullets)

take_short : {A : Type 0} (k : ℕ) (xs : List A) → length xs ≤ k → take k xs ≡ xs
take_short zero [] h = refl
take_short zero (x ∷ xs) h = absurd (omega (arith, h))
take_short (suc k) [] h = refl
take_short (suc k) (x ∷ xs) h = ap (λ r. x ∷ r) (take_short k xs (omega (arith, h)))

-- A message within the limits of the format comes back as it was.
pub decode-encode_fitting :
    (m : StateMsg)
    → IsWire m
    → length m.bullets ≤ max_bullets
    → length m.name ≤ name_max
    → IsUtf8 m.name
    → decode (encode_state m) ≡ ok (some (state m))
decode-encode_fitting m w few short whole =
    let bullets = take_short max_bullets m.bullets few in
    let name : from_utf8_lossy (take name_max m.name) ≡ m.name =
      ap from_utf8_lossy (take_short name_max m.name short) ∙ from_utf8_lossy-IsUtf8 m.name whole in
    decode-encode_state m w
    ∙ ap (λ (r : List Bullet × List ℕ). ok (some (state (record m { bullets = r.0; name = r.1 }))))
        (cc (bullets, name))

-- A hit that was encoded is decoded to itself.
pub decode-encode_hit :
    (victim_id kill_seq : ℕ)
    → victim_id < 2 ^ 16
    → kill_seq < 2 ^ 32
    → decode (encode_hit victim_id kill_seq) ≡ ok (some (hit victim_id kill_seq))
unfolding decode decode_hit long_enough encode_hit be_u16
decode-encode_hit victim_id kill_seq h k =
    rw (be_f32_at (encode_hit victim_id kill_seq) 3 kill_seq [] k refl, u16_round victim_id h)

-- A clock message that was encoded is decoded to itself.
pub decode-encode_clock :
    (game_ms : ℕ) → game_ms < 2 ^ 64 → decode (encode_clock game_ms) ≡ ok (some (clock game_ms))
unfolding decode decode_clock long_enough encode_clock
decode-encode_clock game_ms h =
    let d = encode_clock game_ms in
    let parts : game_ms / 2 ^ 32 * 2 ^ 32 + game_ms % 2 ^ 32 ≡ game_ms = omega arith in
    rw (
      be_f32_at d 1 (game_ms / 2 ^ 32) _ (omega (arith, h)) refl,
      be_f32_at d 5 (game_ms % 2 ^ 32) [] (omega arith) refl,
      parts,
    )

-- ===== src/Asteroids.antt =====
-- examples/asteroids-native/src/protocol.rs: the messages of the example game as bytes, and the
-- comparison of their numbers. A float is the number of its bits: 32 for an f32, 64 for an f64.
pub mod Reading
pub mod RoundTrip
pub mod Sound
pub mod Numbers
mod Examples
use lobbylink.Base.{
  ℕ, zero, suc, ◌+◌, ◌-◌, ◌*◌, ◌/◌, ◌%◌, ◌^◌, min, Bool, List, [], ◌∷◌, ◌++◌, Option, none, some,
  ltb, leb, ◌==◌, not, if◌then◌else◌, get_elem?, length, take, drop,
}
use lobbylink.Base.Outcome.{Outcome, ok, panic, ◌>>=◌, index}
use lobbylink.Base.Utf8.{from_utf8_lossy}
use lobbylink.Base.Words.{u32_to_be_bytes, u32_from_be_bytes}

abbrev pub msg_state : ℕ
msg_state = 0x01

abbrev pub msg_hit : ℕ
msg_hit = 0x02

abbrev pub msg_clock : ℕ
msg_clock = 0x03

abbrev pub max_bullets : ℕ
max_bullets = 8

abbrev pub name_max : ℕ
name_max = 24

pub record Bullet : Type 0 where
  pub x : ℕ
  pub y : ℕ
  pub vx : ℕ
  pub vy : ℕ

pub record StateMsg : Type 0 where
  pub alive : Bool
  pub thrusting : Bool
  pub invuln : Bool
  pub seq : ℕ
  pub x : ℕ
  pub y : ℕ
  pub angle : ℕ
  pub vx : ℕ
  pub vy : ℕ
  pub score : ℕ
  pub bullets : List Bullet
  pub name : List ℕ

pub data Decoded : Type 0 where
  state : StateMsg → Decoded
  hit : (victim_id kill_seq : ℕ) → Decoded
  clock : (game_ms : ℕ) → Decoded

-- `u16::to_be_bytes`, `u64::to_be_bytes` and their inverses.
abbrev pub u16_to_be_bytes : ℕ → List ℕ
u16_to_be_bytes n = (n / 2 ^ 8 % 256) ∷ (n % 256) ∷ []

abbrev pub u64_to_be_bytes : ℕ → List ℕ
u64_to_be_bytes n = u32_to_be_bytes (n / 2 ^ 32) ++ u32_to_be_bytes (n % 2 ^ 32)

-- The flags have a bit each, so `|` is `+` here.
unfoldable pub flags_of : Bool → Bool → Bool → ℕ
flags_of alive thrusting invuln =
    (if alive then 1 else 0) + ((if thrusting then 2 else 0) + (if invuln then 4 else 0))

abbrev pub bullet_bytes : Bullet → List ℕ
bullet_bytes b =
    u32_to_be_bytes b.x ++ (u32_to_be_bytes b.y ++ (u32_to_be_bytes b.vx ++ u32_to_be_bytes b.vy))

unfoldable pub bullets_bytes : List Bullet → List ℕ
bullets_bytes [] = []
bullets_bytes (b ∷ bullets) = bullet_bytes b ++ bullets_bytes bullets

-- The parameters of `encode_state` are the fields of the message.
unfoldable pub encode_state : StateMsg → List ℕ
encode_state m =
    let name_bytes = take name_max m.name in
    let n = min (length m.bullets) max_bullets in
    (msg_state ∷ flags_of m.alive m.thrusting m.invuln ∷ u16_to_be_bytes m.seq)
    ++ (u32_to_be_bytes m.x
        ++ (u32_to_be_bytes m.y
            ++ (u32_to_be_bytes m.angle
                ++ (u32_to_be_bytes m.vx
                    ++ (u32_to_be_bytes m.vy
                        ++ (u32_to_be_bytes m.score
                            ++ (n % 256
                                ∷ (bullets_bytes (take n m.bullets)
                                    ++ (length name_bytes % 256 ∷ name_bytes)))))))))

unfoldable pub encode_hit : ℕ → ℕ → List ℕ
encode_hit victim_id kill_seq = msg_hit ∷ (u16_to_be_bytes victim_id ++ u32_to_be_bytes kill_seq)

unfoldable pub encode_clock : ℕ → List ℕ
encode_clock game_ms = msg_clock ∷ u64_to_be_bytes game_ms

-- Reads of a slice, which panic out of range.
abbrev pub Read {ℓ} : Type ℓ → Type ℓ
Read A = Outcome ⊥ A

unfoldable pub be_u16 : List ℕ → ℕ → Read ℕ
be_u16 d o = do a ← index d o; b ← index d (o + 1); ok (a * 2 ^ 8 + b)

-- `be_f32`, and the `u32::from_be_bytes` of four elements.
unfoldable pub be_f32 : List ℕ → ℕ → Read ℕ
be_f32 d o = do
  a ← index d o
  b ← index d (o + 1)
  c ← index d (o + 2)
  e ← index d (o + 3)
  ok (u32_from_be_bytes a b c e)

unfoldable pub read_bullet : List ℕ → ℕ → Read Bullet
read_bullet d o = do
  x ← be_f32 d o
  y ← be_f32 d (o + 4)
  vx ← be_f32 d (o + 8)
  vy ← be_f32 d (o + 12)
  ok (record { x = x; y = y; vx = vx; vy = vy })

-- The loop over the bullets, from an offset on.
unfoldable pub read_bullets : List ℕ → ℕ → ℕ → Read (List Bullet)
read_bullets d o zero = ok []
read_bullets d o (suc n) = do
  b ← read_bullet d o
  bullets ← read_bullets d (o + 16) n
  ok (b ∷ bullets)

-- `&d[start..start + len]`
unfoldable pub slice_from : List ℕ → ℕ → ℕ → Read (List ℕ)
slice_from d start len =
    if leb (start + len) (length d) then ok (take len (drop start d)) else panic

abbrev pub bit : ℕ → ℕ → Bool
bit flags n = not (flags / 2 ^ n % 2 == 0)

-- The fields before the bullets, when the length was checked.
unfoldable pub read_state : List ℕ → List Bullet → List ℕ → Read StateMsg
read_state d bullets name = do
  flags ← index d 1
  seq ← be_u16 d 2
  x ← be_f32 d 4
  y ← be_f32 d 8
  angle ← be_f32 d 12
  vx ← be_f32 d 16
  vy ← be_f32 d 20
  score ← be_f32 d 24
  ok (record {
    alive = bit flags 0;
    thrusting = bit flags 1;
    invuln = bit flags 2;
    seq = seq;
    x = x;
    y = y;
    angle = angle;
    vx = vx;
    vy = vy;
    score = score;
    bullets = bullets;
    name = from_utf8_lossy name;
  })

-- `if d.len() < n { return None; }`
unfoldable pub long_enough : ℕ → List ℕ → Read (Option Decoded) → Read (Option Decoded)
long_enough n d read = if ltb (length d) n then ok none else read

-- The end of a state message, from the length of the name on.
unfoldable pub read_name : List ℕ → ℕ → List Bullet → Read (Option Decoded)
read_name d o bullets = do
  name_len ← index d o
  long_enough (o + 1 + name_len) d
      (do name ← slice_from d (o + 1) name_len; m ← read_state d bullets name; ok (some (state m)))

unfoldable pub decode_state : List ℕ → Read (Option Decoded)
decode_state d = long_enough 29 d (do
  n ← index d 28
  long_enough (29 + n * 16 + 1) d
      (do bullets ← read_bullets d 29 n; read_name d (29 + n * 16) bullets))

unfoldable pub decode_hit : List ℕ → Read (Option Decoded)
decode_hit d =
    long_enough 7 d
      (do victim_id ← be_u16 d 1; kill_seq ← be_f32 d 3; ok (some (hit victim_id kill_seq)))

unfoldable pub decode_clock : List ℕ → Read (Option Decoded)
decode_clock d =
    long_enough 9 d
      (do high ← be_f32 d 1; low ← be_f32 d 5; ok (some (clock (high * 2 ^ 32 + low))))

unfoldable pub decode : List ℕ → Read (Option Decoded)
decode [] = ok none
decode (tag ∷ rest) =
    if tag == msg_state
    then decode_state (tag ∷ rest)
    else if tag == msg_hit
    then decode_hit (tag ∷ rest)
    else if tag == msg_clock
    then decode_clock (tag ∷ rest)
    else ok none

-- `seq.wrapping_sub(last) < 0x8000`
unfoldable pub seq_newer : ℕ → ℕ → Bool
seq_newer seq last = ltb ((seq + 2 ^ 16 - last) % 2 ^ 16) 0x8000

-- ===== src/Asteroids/Sound.antt =====
-- The decoder gives a message or none on any bytes: no read of it is out of range.
use lobbylink.Base.{
  ℕ, zero, suc, ◌+◌, ◌*◌, ◌≤◌, ◌<◌, ◌≡◌, refl, List, [], ◌∷◌, Option, none, ltb, leb, ◌==◌, if_both,
  if_cases, length, lt-get_elem?, arith,
}
use lobbylink.Base.Outcome.{ok, err, panic, index, index-eq-ok, ◌>>=◌}
use lobbylink.Asteroids.{
  Bullet, Decoded, Read, be_u16, be_f32, read_bullet, read_bullets, slice_from, read_state,
  long_enough, read_name, decode_state, decode_hit, decode_clock, decode, msg_state, msg_hit,
  msg_clock,
}

-- A read that gives something.
abbrev Runs : {A : Type 0} → Read A → Type 0
Runs {A} r = (a : A) × (r ≡ ok a)

Runs-bind :
    {A B : Type 0} (first : Read A) (next : A → Read B)
    → Runs first
    → ((a : A) → first ≡ ok a → Runs (next a))
    → Runs (first >>= next)
Runs-bind (ok a) next r h = h a refl
Runs-bind (err e) next r h = absurd e
Runs-bind panic next r h = cc (r.1)

index-Runs : (d : List ℕ) (i : ℕ) → i < length d → Runs (index d i)
index-Runs d i h = let (a, there) = lt-get_elem? d i h in (a, index-eq-ok d i a there)

be_u16-Runs : (d : List ℕ) (o : ℕ) → o + 2 ≤ length d → Runs (be_u16 d o)
unfolding be_u16
be_u16-Runs d o h = Runs-bind (index d o) _ (index-Runs d o (omega (arith, h))) (λ a _.
    Runs-bind (index d (o + 1)) _ (index-Runs d (o + 1) (omega (arith, h))) (λ b _. (_, refl)))

be_f32-Runs : (d : List ℕ) (o : ℕ) → o + 4 ≤ length d → Runs (be_f32 d o)
unfolding be_f32
be_f32-Runs d o h = Runs-bind (index d o) _ (index-Runs d o (omega (arith, h))) (λ a _.
    Runs-bind (index d (o + 1)) _ (index-Runs d (o + 1) (omega (arith, h))) (λ b _.
      Runs-bind (index d (o + 2)) _ (index-Runs d (o + 2) (omega (arith, h))) (λ c _.
        Runs-bind (index d (o + 3)) _ (index-Runs d (o + 3) (omega (arith, h)))
          (λ e _. (_, refl)))))

read_bullet-Runs : (d : List ℕ) (o : ℕ) → o + 16 ≤ length d → Runs (read_bullet d o)
unfolding read_bullet
read_bullet-Runs d o h = Runs-bind (be_f32 d o) _ (be_f32-Runs d o (omega (arith, h))) (λ x _.
    Runs-bind (be_f32 d (o + 4)) _ (be_f32-Runs d (o + 4) (omega (arith, h))) (λ y _.
      Runs-bind (be_f32 d (o + 8)) _ (be_f32-Runs d (o + 8) (omega (arith, h))) (λ vx _.
        Runs-bind (be_f32 d (o + 12)) _ (be_f32-Runs d (o + 12) (omega (arith, h)))
          (λ vy _. (_, refl)))))

read_bullets-Runs : (n : ℕ) (d : List ℕ) (o : ℕ) → o + n * 16 ≤ length d → Runs (read_bullets d o n)
unfolding read_bullets
read_bullets-Runs zero d o h = (_, refl)
read_bullets-Runs (suc n) d o h =
    Runs-bind (read_bullet d o) _ (read_bullet-Runs d o (omega (arith, h))) (λ b _.
      Runs-bind (read_bullets d (o + 16) n) _ (read_bullets-Runs n d (o + 16) (omega (arith, h)))
        (λ bullets _. (_, refl)))

slice_from-Runs :
    (d : List ℕ) (start len : ℕ) → start + len ≤ length d → Runs (slice_from d start len)
unfolding slice_from
slice_from-Runs d start len h =
    if_cases Runs (leb (start + len) (length d)) _ _ (λ _. (_, refl))
      (λ out. absurd (ground (arith, out, h)))

read_state-Runs :
    (d : List ℕ) (bullets : List Bullet) (name : List ℕ)
    → 29 ≤ length d
    → Runs (read_state d bullets name)
unfolding read_state
read_state-Runs d bullets name h =
    Runs-bind (index d 1) _ (index-Runs d 1 (omega (arith, h))) (λ flags _.
      Runs-bind (be_u16 d 2) _ (be_u16-Runs d 2 (omega (arith, h))) (λ seq _.
        Runs-bind (be_f32 d 4) _ (be_f32-Runs d 4 (omega (arith, h))) (λ x _.
          Runs-bind (be_f32 d 8) _ (be_f32-Runs d 8 (omega (arith, h))) (λ y _.
            Runs-bind (be_f32 d 12) _ (be_f32-Runs d 12 (omega (arith, h))) (λ angle _.
              Runs-bind (be_f32 d 16) _ (be_f32-Runs d 16 (omega (arith, h))) (λ vx _.
                Runs-bind (be_f32 d 20) _ (be_f32-Runs d 20 (omega (arith, h))) (λ vy _.
                  Runs-bind (be_f32 d 24) _ (be_f32-Runs d 24 (omega (arith, h)))
                    (λ score _. (_, refl)))))))))

long_enough-Runs :
    (n : ℕ) (d : List ℕ) (read : Read (Option Decoded))
    → (n ≤ length d → Runs read)
    → Runs (long_enough n d read)
unfolding long_enough
long_enough-Runs n d read h =
    if_cases Runs (ltb (length d) n) _ _ (λ _. (_, refl)) (λ long. h (ground (arith, long)))

read_name-Runs :
    (d : List ℕ) (o : ℕ) (bullets : List Bullet)
    → 29 ≤ o
    → o + 1 ≤ length d
    → Runs (read_name d o bullets)
unfolding read_name
read_name-Runs d o bullets h k =
    Runs-bind (index d o) _ (index-Runs d o (omega (arith, k))) (λ len _.
      long_enough-Runs (o + 1 + len) d _ (λ long.
        Runs-bind (slice_from d (o + 1) len) _ (slice_from-Runs d (o + 1) len long) (λ name _.
          Runs-bind (read_state d bullets name) _
            (read_state-Runs d bullets name (omega (arith, h, k))) (λ m _. (_, refl)))))

decode_state-Runs : (d : List ℕ) → Runs (decode_state d)
unfolding decode_state
decode_state-Runs d = long_enough-Runs 29 d _ (λ long.
    Runs-bind (index d 28) _ (index-Runs d 28 (omega (arith, long))) (λ n _.
      long_enough-Runs (29 + n * 16 + 1) d _ (λ longer.
        Runs-bind (read_bullets d 29 n) _ (read_bullets-Runs n d 29 (omega (arith, longer)))
          (λ bullets _.
            read_name-Runs d (29 + n * 16) bullets (omega arith) (omega (arith, longer))))))

decode_hit-Runs : (d : List ℕ) → Runs (decode_hit d)
unfolding decode_hit
decode_hit-Runs d = long_enough-Runs 7 d _ (λ long.
    Runs-bind (be_u16 d 1) _ (be_u16-Runs d 1 (omega (arith, long))) (λ victim_id _.
      Runs-bind (be_f32 d 3) _ (be_f32-Runs d 3 (omega (arith, long))) (λ kill_seq _. (_, refl))))

decode_clock-Runs : (d : List ℕ) → Runs (decode_clock d)
unfolding decode_clock
decode_clock-Runs d = long_enough-Runs 9 d _ (λ long.
    Runs-bind (be_f32 d 1) _ (be_f32-Runs d 1 (omega (arith, long))) (λ high _.
      Runs-bind (be_f32 d 5) _ (be_f32-Runs d 5 (omega (arith, long))) (λ low _. (_, refl))))

-- On any bytes, also cut off or made up ones, `decode` gives a message or none and does not panic.
pub decode_total : (d : List ℕ) → (m : Option Decoded) × (decode d ≡ ok m)
unfolding decode
decode_total [] = (none, refl)
decode_total (tag ∷ rest) = if_both Runs (tag == msg_state) _ _ (decode_state-Runs (tag ∷ rest)) (
    if_both Runs (tag == msg_hit) _ _ (decode_hit-Runs (tag ∷ rest))
      (if_both Runs (tag == msg_clock) _ _ (decode_clock-Runs (tag ∷ rest)) (_, refl)))

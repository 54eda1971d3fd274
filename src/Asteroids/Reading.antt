-- ===== src/Asteroids/Reading.antt =====
-- Reads at an offset of a slice: what stands there is what is read.
use lobbylink.Base.{
  ℕ, zero, suc, ◌+◌, ◌*◌, ◌^◌, ◌<◌, ◌≡◌, refl, sym, ap, ◌∙◌, List, [], ◌∷◌, ◌++◌, some, All, length,
  drop, get_elem?, arith,
}
use lobbylink.Base.Outcome.{ok, index, index-eq-ok}
use lobbylink.Base.Words.{u32_to_be_bytes, from-to_be_bytes}
use lobbylink.Asteroids.{
  Bullet, bullet_bytes, bullets_bytes, Read, be_f32, read_bullet, read_bullets,
}

pub get_elem?-drop : (d : List ℕ) (o k : ℕ) → get_elem? d (o + k) ≡ get_elem? (drop o d) k
get_elem?-drop d zero k = ap (λ i. get_elem? d i) (omega arith)
get_elem?-drop [] (suc o) k = refl
get_elem?-drop (x ∷ d) (suc o) k =
    let here : suc o + k ≡ suc (o + k) = omega arith in
    ap (λ i. get_elem? (x ∷ d) i) here ∙ get_elem?-drop d o k

abbrev empty_bytes : List ℕ
empty_bytes = []

drop_nil : (k : ℕ) → drop k empty_bytes ≡ empty_bytes
drop_nil zero = refl
drop_nil (suc k) = refl

pub drop-drop : (d : List ℕ) (o k : ℕ) → drop (o + k) d ≡ drop k (drop o d)
drop-drop d zero k = ap (λ i. drop i d) (omega arith)
drop-drop [] (suc o) k =
    let here : suc o + k ≡ suc (o + k) = omega arith in
    ap (λ i. drop i empty_bytes) here ∙ sym (drop_nil k)
drop-drop (x ∷ d) (suc o) k =
    let here : suc o + k ≡ suc (o + k) = omega arith in
    ap (λ i. drop i (x ∷ d)) here ∙ drop-drop d o k

-- The element at a place behind an offset.
pub index_at :
    (d : List ℕ) (o k : ℕ) (xs : List ℕ) (b i : ℕ)
    → drop o d ≡ xs
    → get_elem? xs k ≡ some b
    → i ≡ o + k
    → ◌≡◌ {A = Read ℕ} (index d i) (ok b)
index_at d o k xs b i there here same = index-eq-ok d i b (
    ap (λ j. get_elem? d j) same
    ∙ (get_elem?-drop d o k ∙ (ap (λ ys. get_elem? ys k) there ∙ here)))

pub be_f32_at :
    (d : List ℕ) (o w : ℕ) (rest : List ℕ)
    → w < 2 ^ 32
    → drop o d ≡ u32_to_be_bytes w ++ rest
    → be_f32 d o ≡ ok w
unfolding be_f32
be_f32_at d o w rest small there = rw (
  index_at d o 0 _ _ o there refl (omega arith),
  index_at d o 1 _ _ (o + 1) there refl refl,
  index_at d o 2 _ _ (o + 2) there refl refl,
  index_at d o 3 _ _ (o + 3) there refl refl,
  from-to_be_bytes w small,
)

-- The numbers of a bullet have 32 bits.
pub record IsBullet (b : Bullet) : Type 0 where
  pub x : b.x < 2 ^ 32
  pub y : b.y < 2 ^ 32
  pub vx : b.vx < 2 ^ 32
  pub vy : b.vy < 2 ^ 32

read_bullet_at :
    (d : List ℕ) (o : ℕ) (b : Bullet) (rest : List ℕ)
    → IsBullet b
    → drop o d ≡ bullet_bytes b ++ rest
    → read_bullet d o ≡ ok b
unfolding read_bullet
read_bullet_at d o b rest small there =
    let later = λ (k : ℕ). drop-drop d o k ∙ ap (λ ys. drop k ys) there in
    rw (
      be_f32_at d o b.x _ small.x there,
      be_f32_at d (o + 4) b.y _ small.y (later 4),
      be_f32_at d (o + 8) b.vx _ small.vx (later 8),
      be_f32_at d (o + 12) b.vy _ small.vy (later 12),
    )

pub read_bullets_at :
    (bullets : List Bullet) (d : List ℕ) (o : ℕ) (rest : List ℕ)
    → All IsBullet bullets
    → drop o d ≡ bullets_bytes bullets ++ rest
    → (read_bullets d o (length bullets) ≡ ok bullets) × (drop (o + length bullets * 16) d ≡ rest)
unfolding read_bullets bullets_bytes
read_bullets_at [] d o rest small there = (refl, ap (λ i. drop i d) (omega arith) ∙ there)
read_bullets_at (b ∷ bullets) d o rest small there =
    let next : drop (o + 16) d ≡ bullets_bytes bullets ++ rest =
      drop-drop d o 16 ∙ ap (λ ys. drop 16 ys) there in
    let (read, left) = read_bullets_at bullets d (o + 16) rest small.1 next in
    (rw (read_bullet_at d o b _ small.0 there, read), ap (λ i. drop i d) (omega arith) ∙ left)

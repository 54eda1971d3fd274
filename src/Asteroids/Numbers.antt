-- ===== src/Asteroids/Numbers.antt =====
-- The comparison of the numbers of state messages, which wrap around.
use lobbylink.Base.{ℕ, ◌+◌, ◌-◌, ◌%◌, ◌^◌, ◌<◌, ◌≡◌, ltb, true, false, ◌≢◌, arith}
use lobbylink.Asteroids.{seq_newer}

-- A number that is `k` steps after the last one, with wrap-around, is newer exactly if `k` is less than
-- half the range; so the last one itself is newer too, and one that is half the range or more ahead
-- counts as old.
pub seq_newer_exact :
    (last k : ℕ) → last < 2 ^ 16 → k < 2 ^ 16 → seq_newer ((last + k) % 2 ^ 16) last ≡ ltb k 0x8000
unfolding seq_newer
seq_newer_exact last k h j =
    let steps : ((last + k) % 2 ^ 16 + 2 ^ 16 - last) % 2 ^ 16 ≡ k = omega (arith, h, j) in rw steps

-- Of two different numbers not each is newer than the other.
pub seq_newer_asym :
    (a b : ℕ) → a < 2 ^ 16 → b < 2 ^ 16 → a ≢ b → seq_newer a b ≡ true → seq_newer b a ≡ false
unfolding seq_newer
seq_newer_asym a b h j differ newer = ground (arith, h, j, differ, newer)

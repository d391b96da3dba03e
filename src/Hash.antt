-- ===== src/Hash.antt =====
-- What the program takes from `hashlib` and from `bytes`: SHA-256 as a parameter, and the
-- hexadecimal texts of digests (app/blocks.py, app/replay.py, app/attest.py).
pub mod Hex
use persistence_memory.Prelude.{ℕ, ◌<◌, ◌≡◌, ◌≢◌, ◌⊎◌, inl, inr, All, Bytes, length}
use native.Mathlib.Decide.{ℕ_discrete}
unfoldable pub use Hex.{to_hex, fromhex, is_hex64}
pub use Hex.{IsHex64, without_newline, to_hex-injective, fromhex-injective, is_hex64-Without}

-- `hashlib.sha256(m).digest()`: 32 bytes. Nothing else is assumed of it.
pub record Sha256 : Type 0 where
  pub digest : Bytes → Bytes
  pub length-digest : (m : Bytes) → length (digest m) ≡ 32
  pub digest_bytes : (m : Bytes) → All (λ b. b < 256) (digest m)

-- Two different messages with one digest, the first among those that one computation hashes, the
-- second among those of another.
abbrev pub Collision : Sha256 → (Bytes → Type 0) → (Bytes → Type 0) → Type 0
Collision h P Q = (x : Bytes) × (y : Bytes) × P x × Q y × (x ≢ y) × (h.digest x ≡ h.digest y)

Bytes-discrete : Discrete Bytes
Bytes-discrete = hlevel ℕ_discrete

-- Equal digests are of equal messages, or the two messages collide.
pub digest-injective :
    (h : Sha256) {P Q : Bytes → Type 0} (x y : Bytes)
    → P x
    → Q y
    → h.digest x ≡ h.digest y
    → (x ≡ y) ⊎ Collision h P Q
digest-injective h x y px qy e = elim (Bytes-discrete x y) [
  | yes p ↦ inl p
  | no n ↦ inr (x, y, px, qy, n, e)
]

-- A collision among some messages is one among more.
pub Collision-grow :
    (h : Sha256) {P Q P' Q' : Bytes → Type 0}
    → ((m : Bytes) → P m → P' m)
    → ((m : Bytes) → Q m → Q' m)
    → Collision h P Q
    → Collision h P' Q'
Collision-grow h f g (x, y, px, qy, n, e) = (x, y, f x px, g y qy, n, e)

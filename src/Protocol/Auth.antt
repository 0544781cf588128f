-- ===== src/Protocol/Auth.antt =====
-- src/protocol/handshake.rs and src/client.rs: native passwords. SHA-1 is the library's: a
-- parameter that gives twenty bytes.
use Prim.Native.Nat.{bit_xor}
use srrdb.Prelude.{
  ℕ, zero, suc, ◌<◌, ◌≡◌, refl, ◌∙◌, sym, arith, true, if◌then◌else◌, false, nat_beq, nat_beq_iff,
  list_beq_iff, Bool, List, [], ◌∷◌, ◌++◌, ◌==◌, length, nat_eq, list_eq,
}
use srrdb.Std.Text.{Text}

-- every element is a byte
abbrev pub AreBytes : List ℕ → Type 0
AreBytes [] = Unit
AreBytes (b ∷ bs) = (b < 256) × AreBytes bs

pub record Sha1 : Type 0 where
  pub digest : List ℕ → List ℕ
  pub length-digest : (s : List ℕ) → length (digest s) ≡ 20
  pub digest-AreBytes : (s : List ℕ) → AreBytes (digest s)

-- `a.iter().zip(b.iter()).map(|(a, b)| a ^ b)`
unfoldable pub xor_bytes : List ℕ → List ℕ → List ℕ
xor_bytes [] bs = []
xor_bytes (a ∷ as_bytes) [] = []
xor_bytes (a ∷ as_bytes) (b ∷ bs) = bit_xor a b ∷ xor_bytes as_bytes bs

module _ ⦃h : Sha1⦄ where
  -- `compute_auth_response` of the client, and what `verify_native_password` expects
  unfoldable pub compute_auth_response : Text → List ℕ → List ℕ
  unfolding xor_bytes
  compute_auth_response password scramble =
      xor_bytes (h.digest password) (h.digest (scramble ++ h.digest (h.digest password)))

  -- `verify_native_password`
  unfoldable pub verify_native_password : Text → List ℕ → List ℕ → Bool
  unfolding xor_bytes
  verify_native_password password scramble auth_response =
      auth_response
      == xor_bytes (h.digest password) (h.digest (scramble ++ h.digest (h.digest password)))

  -- `verify_native_password_hash`
  unfoldable pub verify_native_password_hash : List ℕ → List ℕ → List ℕ → Bool
  unfolding xor_bytes
  verify_native_password_hash stored_double_hash scramble auth_response =
      h.digest (xor_bytes auth_response (h.digest (scramble ++ stored_double_hash)))
      == stored_double_hash

  -- `hash_native_password`
  unfoldable pub hash_native_password : Text → List ℕ
  hash_native_password password = h.digest (h.digest password)

-- a test on every number below a bound
unfoldable passes_below : (ℕ → Bool) → ℕ → Bool
passes_below test zero = true
passes_below test (suc bound) =
    let rest = passes_below test bound in if test bound then rest else false

passes_below_each :
    (test : ℕ → Bool) (bound n : ℕ) → n < bound → passes_below test bound ≡ true → test n ≡ true
unfolding passes_below
passes_below_each test zero n below passes = absurd (omega arith)
passes_below_each test (suc bound) n below passes =
    ground (arith, below, passes, passes_below_each test bound n)

-- two bytes xored with the second again, for all bytes
xor_table :
    passes_below (λ a. passes_below (λ b. nat_beq (bit_xor (bit_xor a b) b) a) 256) 256 ≡ true
unfolding passes_below
xor_table = refl

xor_twice : (a b : ℕ) → a < 256 → b < 256 → bit_xor (bit_xor a b) b ≡ a
xor_twice a b h k =
    (nat_beq_iff _ a).0 (passes_below_each _ 256 b k (passes_below_each _ 256 a h xor_table))

-- bytes xored twice with bytes no fewer
pub xor_bytes_twice :
    (s t : List ℕ) → AreBytes s → AreBytes t → length s ≡ length t → xor_bytes (xor_bytes s t) t ≡ s
unfolding xor_bytes
xor_bytes_twice [] t hs ht e = refl
xor_bytes_twice (a ∷ s) [] hs ht e = absurd (omega arith)
xor_bytes_twice (a ∷ s) (b ∷ t) hs ht e =
    rw (xor_twice a b hs.0 ht.0) (rw (xor_bytes_twice s t hs.1 ht.1 (omega arith)))

module _ ⦃h : Sha1⦄ where
  -- The client's response to a scramble is accepted by the server that stores the hash of the same
  -- password.
  pub verify-compute_auth_response :
      (password : Text) (scramble : List ℕ)
      → verify_native_password_hash
          (hash_native_password password)
          scramble
          (compute_auth_response password scramble)
        ≡ true
  unfolding verify_native_password_hash hash_native_password compute_auth_response
  verify-compute_auth_response password scramble =
      let e =
        xor_bytes_twice (h.digest password) (h.digest (scramble ++ h.digest (h.digest password)))
          (h.digest-AreBytes _) (h.digest-AreBytes _)
          (h.length-digest _ ∙ sym (h.length-digest _)) in
      let d : List ℕ = h.digest (h.digest password) in rw e ((list_beq_iff d d).1 refl)

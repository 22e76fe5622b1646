-- ===== src/Cap/Verify/Nonces.antt =====
-- Proofs about the nonces of `verify_p2` of crates/rvm-cap/src/verify.rs.
use rvm.Prelude.{
  ◌==◌, if◌then◌else◌, ℕ, subst, sym, refl, inl, inr, Bool, Bool-cases, get_or, get_or-set_ne,
  ℕ_discrete, ◌+◌, ◌%◌, ◌<◌, ◌≡◌, ◌≢◌, true, false, err, ok, arith, length, set, get_or-set_self,
  length-set,
}
use rvm.Cap.Error.{policy_violation}
use rvm.Cap.Table.{CapabilityTable}
use rvm.Cap.Derivation.{DerivationTree}
use rvm.Cap.Verify.{
  ProofVerifier, PolicyContext, nonce_ring_size, check_nonce, advance_watermark, mark_nonce,
  verify_p2, p2_checks, set_epoch, set_allow_zero_nonce,
}

-- The nonce is in its slot of the table of hashes.
abbrev IsMarked : ℕ → ProofVerifier → Type 0
IsMarked n v =
    (length v.nonce_hash ≡ nonce_ring_size) × (get_or v.nonce_hash (n % nonce_ring_size) 0 ≡ n)

mark_nonce-IsMarked :
    (v : ProofVerifier) (n : ℕ)
    → length v.nonce_hash ≡ nonce_ring_size
    → n ≢ 0
    → IsMarked n (mark_nonce v n)
unfolding mark_nonce advance_watermark
mark_nonce-IsMarked v n h ne = ground (
  arith,
  get_or-set_self v.nonce_hash (n % nonce_ring_size) n 0,
  length-set v.nonce_hash (n % nonce_ring_size) n,
)

-- A nonce other than zero is written to its slot of the table.
mark_nonce-hash :
    (v : ProofVerifier) (k : ℕ)
    → (mark_nonce v k).nonce_hash
      ≡ (if k == 0 then v.nonce_hash else set v.nonce_hash (k % nonce_ring_size) k)
unfolding mark_nonce advance_watermark
mark_nonce-hash v k = ground arith

-- Another nonce leaves it there, unless the two are equal modulo 4096.
mark_nonce-keeps :
    (v : ProofVerifier) (n k : ℕ)
    → n ≢ 0
    → (k % nonce_ring_size ≡ n % nonce_ring_size → k ≡ n)
    → IsMarked n v
    → IsMarked n (mark_nonce v k)
mark_nonce-keeps v n k nz apart m = elim (ℕ_discrete k n) [
  | yes same ↦ subst (λ x. IsMarked n (mark_nonce v x)) (sym same) (mark_nonce-IsMarked v n m.0 nz)
  | no ne ↦ elim (Bool-cases (k == 0)) [
    | inl zero ↦ rw (mark_nonce-hash v k, zero) m
    | inr _ ↦
        let away : k % nonce_ring_size ≢ n % nonce_ring_size = λ e. ne (apart e) in
        ground (
          arith,
          mark_nonce-hash v k,
          m,
          get_or-set_ne v.nonce_hash (k % nonce_ring_size) (n % nonce_ring_size) k 0 away,
          length-set v.nonce_hash (k % nonce_ring_size) k,
        )
  ]
]

check_nonce-marked : (v : ProofVerifier) (n : ℕ) → n ≢ 0 → IsMarked n v → check_nonce v n ≡ false
unfolding check_nonce
check_nonce-marked v n ne m = ground (arith, m.1)

-- The calls that may follow: proofs of any kind, of which those that are accepted have the nonce `n`
-- or one that is not equal to it modulo 4096, and changes of the two settings.
pub data Step (n : ℕ) (v : ProofVerifier) : ProofVerifier → Type 0 where
  verifies :
      (t : CapabilityTable) (d : DerivationTree) (i g : ℕ) (ctx : PolicyContext)
      → ((verify_p2 v t d i g ctx).1 ≡ ok tt
          → ctx.nonce % nonce_ring_size ≡ n % nonce_ring_size
          → ctx.nonce ≡ n)
      → Step n v (verify_p2 v t d i g ctx).0
  sets_epoch : (epoch : ℕ) → Step n v (set_epoch v epoch)
  sets_allow : (allow : Bool) → Step n v (set_allow_zero_nonce v allow)

pub data Reach (n : ℕ) (v : ProofVerifier) : ProofVerifier → Type 0 where
  here : Reach n v v
  next : {p q : ProofVerifier} → Reach n v p → Step n p q → Reach n v q

Step-IsMarked : {n : ℕ} {v v' : ProofVerifier} → n ≢ 0 → Step n v v' → IsMarked n v → IsMarked n v'
unfolding verify_p2 set_epoch set_allow_zero_nonce
Step-IsMarked {n} {v} nz (verifies t d i g ctx apart) m =
    elim (Bool-cases (p2_checks v t d i g ctx)) [
      | inl accepted ↦ rw accepted (mark_nonce-keeps v n ctx.nonce nz (apart (rw accepted refl)) m)
      | inr refused ↦ rw refused m
    ]
Step-IsMarked nz (sets_epoch epoch) m = m
Step-IsMarked nz (sets_allow allow) m = m

Reach-IsMarked :
    {n : ℕ} {v v' : ProofVerifier} → n ≢ 0 → Reach n v v' → IsMarked n v → IsMarked n v'
Reach-IsMarked nz here m = m
Reach-IsMarked nz (next r s) m = Step-IsMarked nz s (Reach-IsMarked nz r m)

-- A proof that P2 has accepted is refused when its nonce is presented again, whatever the table, the
-- tree and the rest of the policy are by then, and whatever proofs P2 has checked and settings have
-- changed in between, as long as no nonce that P2 has accepted in between differs from it and is
-- equal to it modulo 4096. The nonce is not zero, and the table of hashes has its 4096 slots.
pub verify_p2-replay :
    (v v' v'' : ProofVerifier) (t t' : CapabilityTable) (d d' : DerivationTree) (i i' g g' : ℕ)
    (ctx ctx' : PolicyContext)
    → length v.nonce_hash ≡ nonce_ring_size
    → ctx.nonce ≢ 0
    → ctx'.nonce ≡ ctx.nonce
    → verify_p2 v t d i g ctx ≡ (v', ok tt)
    → Reach ctx.nonce v' v''
    → verify_p2 v'' t' d' i' g' ctx' ≡ (v'', err policy_violation)
unfolding verify_p2
verify_p2-replay v v' v'' t t' d d' i i' g g' ctx ctx' h ne same e later =
    let marked : v' ≡ mark_nonce v ctx.nonce = ground (arith, e) in
    let m = Reach-IsMarked ne later (rw marked (mark_nonce-IsMarked v ctx.nonce h ne)) in
    ground (arith, check_nonce-marked v'' ctx.nonce ne m, same)

-- But a nonce is forgotten as soon as another one that is equal to it modulo 4096 has been accepted,
-- long before the ring is full: a verifier that marks `n` and then `n + 4096`, without the ring
-- wrapping meanwhile, accepts `n` again.
pub check_nonce-collision :
    (v : ProofVerifier) (n : ℕ)
    → length v.nonce_hash ≡ nonce_ring_size
    → v.nonce_write_pos + 2 < nonce_ring_size
    → v.nonce_watermark < n
    → check_nonce (mark_nonce (mark_nonce v n) (n + nonce_ring_size)) n ≡ true
unfolding check_nonce mark_nonce
check_nonce-collision v n sized room fresh =
    let at : (n + nonce_ring_size) % nonce_ring_size ≡ n % nonce_ring_size = omega arith in
    ground (
      arith,
      at,
      get_or-set_self (set v.nonce_hash (n % nonce_ring_size) n) (n % nonce_ring_size)
          (n + nonce_ring_size) 0,
      length-set v.nonce_hash (n % nonce_ring_size) n,
    )

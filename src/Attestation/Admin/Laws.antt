-- ===== src/Attestation/Admin/Laws.antt =====
-- What a sequence of transactions does to the contract.
use synddb.Prelude.{
  ℕ, ◌≤◌, ◌≡◌, ◌≢◌, refl, ◌∙◌, Bool, true, false, not, List, [], ◌∷◌, ◌++◌, ◌==◌, leb, Result, ok,
  err, ◌>>◌, arith, inl, inr, ◌⊎◌,
}
use synddb.Attestation.State.{
  StylusAttestationVerifier, VerifierError, Vm, require, put, ownership_transferred,
}
use synddb.Attestation.Admin.{
  only_owner, owned, initialize, add_trusted_jwk, remove_trusted_jwk, add_allowed_image_digest_hash,
  remove_allowed_image_digest_hash, add_trusted_image_signer, remove_trusted_image_signer,
  transfer_ownership,
}

-- The calls that write to the storage.
pub data Call : Type 0 where
  initializes transfers : ℕ → Call
  adds_jwk : ℕ → ℕ → Call
  removes_jwk adds_digest removes_digest adds_signer removes_signer : ℕ → Call

abbrev pub called :
    Vm → StylusAttestationVerifier → Call → Result StylusAttestationVerifier VerifierError
called vm s (initializes t) = initialize vm s t
called vm s (transfers o) = transfer_ownership vm s o
called vm s (adds_jwk k h) = add_trusted_jwk vm s k h
called vm s (removes_jwk k) = remove_trusted_jwk vm s k
called vm s (adds_digest d) = add_allowed_image_digest_hash vm s d
called vm s (removes_digest d) = remove_allowed_image_digest_hash vm s d
called vm s (adds_signer a) = add_trusted_image_signer vm s a
called vm s (removes_signer a) = remove_trusted_image_signer vm s a

-- A failed transaction reverts.
abbrev pub after :
    StylusAttestationVerifier
    → Result StylusAttestationVerifier VerifierError
    → StylusAttestationVerifier
after s (ok s') = s'
after s (err e) = s

pub transact : Vm → StylusAttestationVerifier → Call → StylusAttestationVerifier
transact vm s c = after s (called vm s c)

pub transact_all : List (Vm × Call) → StylusAttestationVerifier → StylusAttestationVerifier
transact_all [] s = s
transact_all ((vm, c) ∷ cs) s = transact_all cs (transact vm s c)

-- The tolerance is at most a day, and there is no key material for a key that is not trusted.
pub record IsValid (s : StylusAttestationVerifier) : Type 0 where
  pub tolerance : s.expiration_tolerance ≤ 86400
  pub material : (k : ℕ) → s.trusted_jwk_hashes k ≡ false → s.jwk_key_material_hashes k ≡ 0

-- What holds after each way through two guards.
guarded :
    (b c : Bool) (d e : VerifierError) (s next : StylusAttestationVerifier)
    (P : StylusAttestationVerifier → Type 0)
    → (b ≡ true → c ≡ true → P next)
    → P s
    → P (after s (require b d >> (require c e >> ok next)))
guarded true true d e s next P hn hs = hn refl refl
guarded true false d e s next P hn hs = hs
guarded false c d e s next P hn hs = hs

owner_guarded :
    (b : Bool) (d : VerifierError) (s next : StylusAttestationVerifier)
    (P : StylusAttestationVerifier → Type 0)
    → (b ≡ true → P next)
    → P s
    → P (after s (require b d >> ok next))
owner_guarded true d s next P hn hs = hn refl
owner_guarded false d s next P hn hs = hs

put_material :
    (s : StylusAttestationVerifier) (key value : ℕ) (trusted : Bool)
    → ((k : ℕ) → s.trusted_jwk_hashes k ≡ false → s.jwk_key_material_hashes k ≡ 0)
    → (trusted ≡ true) ⊎ (value ≡ 0)
    → (k : ℕ) → put s.trusted_jwk_hashes key trusted k ≡ false
    → put s.jwk_key_material_hashes key value k ≡ 0
put_material s key value trusted h g k e = ground (arith, h k)

-- A property holds after a call if it held before, and after each change that goes through.
module _ (vm : Vm) (s : StylusAttestationVerifier) (P : StylusAttestationVerifier → Type 0)
    (before : P s) where
  initialize_lem :
      (t : ℕ)
      → (s.initialized ≡ false
          → t ≤ 86400
          → P (record s { owner = vm.msg_sender; expiration_tolerance = t; initialized = true }))
      → P (transact vm s (initializes t))
  unfolding transact initialize
  initialize_lem t h =
      guarded (not s.initialized) (leb t 86400) _ _ s _ P (λ e f. h (ground arith) (ground arith))
        before

  transfer_lem :
      (o : ℕ)
      → (vm.msg_sender ≡ s.owner
          → P (record s { owner = o; logs = s.logs ++ ownership_transferred s.owner o ∷ [] }))
      → P (transact vm s (transfers o))
  unfolding transact transfer_ownership only_owner
  transfer_lem o h =
      guarded (vm.msg_sender == s.owner) (not (o == 0)) _ _ s _ P (λ e f. h (ground arith)) before

  owned_lem :
      (next : StylusAttestationVerifier)
      → (vm.msg_sender ≡ s.owner → P next)
      → P (after s (owned vm s next))
  unfolding only_owner
  owned_lem next h =
      owner_guarded (vm.msg_sender == s.owner) _ s next P (λ e. h (ground arith)) before

transact-IsValid :
    (vm : Vm) (s : StylusAttestationVerifier) (c : Call) → IsValid s → IsValid (transact vm s c)
unfolding transact add_trusted_jwk remove_trusted_jwk add_allowed_image_digest_hash
    remove_allowed_image_digest_hash add_trusted_image_signer remove_trusted_image_signer
transact-IsValid vm s (initializes t) v =
    initialize_lem vm s IsValid v t λ e small. record { tolerance = small; material = v.material }
transact-IsValid vm s (transfers o) v =
    transfer_lem vm s IsValid v o λ e. record { tolerance = v.tolerance; material = v.material }
transact-IsValid vm s (adds_jwk k h) v = owned_lem vm s IsValid v _ λ e. record {
  tolerance = v.tolerance;
  material = put_material s k h true v.material (inl refl);
}
transact-IsValid vm s (removes_jwk k) v = owned_lem vm s IsValid v _ λ e. record {
  tolerance = v.tolerance;
  material = put_material s k 0 false v.material (inr refl);
}
transact-IsValid vm s (adds_digest d) v =
    owned_lem vm s IsValid v _ λ e. record { tolerance = v.tolerance; material = v.material }
transact-IsValid vm s (removes_digest d) v =
    owned_lem vm s IsValid v _ λ e. record { tolerance = v.tolerance; material = v.material }
transact-IsValid vm s (adds_signer a) v =
    owned_lem vm s IsValid v _ λ e. record { tolerance = v.tolerance; material = v.material }
transact-IsValid vm s (removes_signer a) v =
    owned_lem vm s IsValid v _ λ e. record { tolerance = v.tolerance; material = v.material }

-- However the contract is called, and by whom, the tolerance stays at most a day and a key that is
-- not trusted has no key material.
transact_all-IsValid :
    (cs : List (Vm × Call)) (s : StylusAttestationVerifier)
    → IsValid s
    → IsValid (transact_all cs s)
unfolding transact_all
transact_all-IsValid [] s v = v
transact_all-IsValid ((vm, c) ∷ cs) s v =
    transact_all-IsValid cs (transact vm s c) (transact-IsValid vm s c v)

-- What is settled by the initialization.
abbrev pub Settled : StylusAttestationVerifier → StylusAttestationVerifier → Type 0
Settled s s' = (s'.initialized ≡ true) × (s'.expiration_tolerance ≡ s.expiration_tolerance)

-- After a call of a contract that is initialized; and it changes only if the caller is the owner.
abbrev Keeps : Vm → StylusAttestationVerifier → StylusAttestationVerifier → Type 0
Keeps vm s s' = Settled s s' × ((s' ≡ s) ⊎ (vm.msg_sender ≡ s.owner))

transact-Keeps :
    (vm : Vm) (s : StylusAttestationVerifier) (c : Call)
    → s.initialized ≡ true
    → Keeps vm s (transact vm s c)
unfolding transact add_trusted_jwk remove_trusted_jwk add_allowed_image_digest_hash
    remove_allowed_image_digest_hash add_trusted_image_signer remove_trusted_image_signer
transact-Keeps vm s (initializes t) i =
    initialize_lem vm s (Keeps vm s) ((i, refl), inl refl) t λ e small. cc
transact-Keeps vm s (transfers o) i =
    transfer_lem vm s (Keeps vm s) ((i, refl), inl refl) o λ e. ((i, refl), inr e)
transact-Keeps vm s (adds_jwk k h) i =
    owned_lem vm s (Keeps vm s) ((i, refl), inl refl) _ λ e. ((i, refl), inr e)
transact-Keeps vm s (removes_jwk k) i =
    owned_lem vm s (Keeps vm s) ((i, refl), inl refl) _ λ e. ((i, refl), inr e)
transact-Keeps vm s (adds_digest d) i =
    owned_lem vm s (Keeps vm s) ((i, refl), inl refl) _ λ e. ((i, refl), inr e)
transact-Keeps vm s (removes_digest d) i =
    owned_lem vm s (Keeps vm s) ((i, refl), inl refl) _ λ e. ((i, refl), inr e)
transact-Keeps vm s (adds_signer a) i =
    owned_lem vm s (Keeps vm s) ((i, refl), inl refl) _ λ e. ((i, refl), inr e)
transact-Keeps vm s (removes_signer a) i =
    owned_lem vm s (Keeps vm s) ((i, refl), inl refl) _ λ e. ((i, refl), inr e)

-- No call is from an address.
abbrev pub NoneFrom : ℕ → List (Vm × Call) → Type 0
NoneFrom a [] = Unit {0}
NoneFrom a ((vm, c) ∷ cs) = (vm.msg_sender ≢ a) × NoneFrom a cs

-- A contract that is initialized stays so, with the same tolerance, however it is called. While no
-- call is from its owner, nothing in its storage changes.
pub transact_all-Settled :
    (cs : List (Vm × Call)) (s : StylusAttestationVerifier)
    → s.initialized ≡ true
    → Settled s (transact_all cs s) × (NoneFrom s.owner cs → transact_all cs s ≡ s)
unfolding transact_all
transact_all-Settled [] s i = ((i, refl), λ n. refl)
transact_all-Settled ((vm, c) ∷ cs) s i =
    let (settled, who) = transact-Keeps vm s c i in
    let (rest, same) = transact_all-Settled cs (transact vm s c) settled.0 in
    (
      (rest.0, rest.1 ∙ settled.1),
      λ n. elim who [ inl e ↦ same (rw e n.1) ∙ e | inr owner ↦ absurd (n.0 owner) ],
    )

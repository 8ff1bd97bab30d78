-- ===== src/Drafts/Invariant.antt =====
-- What holds of a draft's keys and of its reports, however the requests on it interleave.
use open_whistle.Base.{
  ℕ, String, ◌≡◌, refl, ap, ◌⊎◌, inl, inr, Bool, true, false, not, ◌||◌, Option, none, some, List,
  [], ◌∷◌, arith, if◌then◌else◌, is_some, if-holds,
}
use text.Mathlib.Text.{◌==◌ as str_eq}
use Prim.Native.String.{[], ◌∷◌}
use open_whistle.Wizard.{Draft}
use open_whistle.Drafts.{
  Keys, Reply, Filed, Received, holds, is_newer, claim_draft, recover_draft, give_back_draft,
  finish_claim,
}
use open_whistle.Drafts.Steps.{
  Request, idle, loaded, saving, submitting, giving_back, finishing, recovering, Store, with_keys,
  Cipher,
}

-- No report, or the one report of the draft.
abbrev pub AtMostOne : ℕ → List Filed → Type 0
AtMostOne id reports =
    (reports ≡ [])
    ⊎ ((case_number : String) × (reports ≡ record { id = id; case_number = case_number } ∷ []))

abbrev pub IsCommitted : ℕ → Store → Type 0
IsCommitted id s =
    (case_number : String) × (s.reports ≡ record { id = id; case_number = case_number } ∷ [])

-- The answers are in the report, in the draft, or in the claimed draft.
abbrev pub IsKept : ℕ → Store → Type 0
IsKept id s =
    IsCommitted id s ⊎ ((is_some s.keys.draft || is_some s.keys.claimed || s.restarted) ≡ true)

module _ (c : Cipher) where
  -- The token decrypts to a draft with the identifier.
  abbrev pub Carries : ℕ → String → Type 0
  Carries id token = (d : Draft) × (c.decrypt_draft token ≡ some d) × (d.report_id ≡ some id)

  abbrev pub AllCarry : ℕ → Option String → Type 0
  AllCarry id none = Unit
  AllCarry id (some token) = Carries id token

  -- A result to store is empty, or it names the report.
  abbrev pub Tells : ℕ → Store → String → Type 0
  Tells id s result =
      (str_eq result "" ≡ true)
      ⊎ ((r : Received) × (c.decrypt_result result ≡ some r)
          × (s.reports ≡ record { id = id; case_number = r.case_number } ∷ []))

  abbrev pub AllTell : ℕ → Store → Option String → Type 0
  AllTell id s none = Unit
  AllTell id s (some result) =
      (r : Received) × (c.decrypt_result result ≡ some r)
      × (s.reports ≡ record { id = id; case_number = r.case_number } ∷ [])

  abbrev pub RequestHolds : ℕ → Store → Request → Type 0
  RequestHolds id s idle = Unit
  RequestHolds id s (loaded d) = d.report_id ≡ some id
  RequestHolds id s (saving d) = d.report_id ≡ some id
  RequestHolds id s (submitting token nonce d our_case) = Carries id token × (d.report_id ≡ some id)
  RequestHolds id s (giving_back token nonce d) = Carries id token × (d.report_id ≡ some id)
  RequestHolds id s (finishing nonce result) = IsCommitted id s × Tells id s result
  RequestHolds id s (recovering token result) = Tells id s result

  pub record IsSafe (id : ℕ) (s : Store) : Type 0 where
    pub draft : AllCarry id s.keys.draft
    pub claimed : AllCarry id s.keys.claimed
    pub result : AllTell id s s.keys.result
    pub reports : AtMostOne id s.reports
    pub kept : IsKept id s

  -- A report of the draft stays as it is.
  abbrev pub Grows : Store → Store → Type 0
  Grows s s' = (r : Filed) → s.reports ≡ r ∷ [] → s'.reports ≡ r ∷ []

  Tells-grow :
      (id : ℕ) (s s' : Store) (result : String)
      → Grows s s'
      → Tells id s result
      → Tells id s' result
  Tells-grow id s s' result grows (inl e) = inl e
  Tells-grow id s s' result grows (inr (r, e, h)) = inr (r, e, grows _ h)

  pub RequestHolds-grow :
      (id : ℕ) (s s' : Store) (r : Request)
      → Grows s s'
      → RequestHolds id s r
      → RequestHolds id s' r
  RequestHolds-grow id s s' idle grows h = h
  RequestHolds-grow id s s' (loaded d) grows h = h
  RequestHolds-grow id s s' (saving d) grows h = h
  RequestHolds-grow id s s' (submitting token nonce d our_case) grows h = h
  RequestHolds-grow id s s' (giving_back token nonce d) grows h = h
  RequestHolds-grow id s s' (finishing nonce result) grows h =
      ((h.0.0, grows _ h.0.1), Tells-grow id s s' result grows h.1)
  RequestHolds-grow id s s' (recovering token result) grows h = Tells-grow id s s' result grows h

  holds-is_some : (o : Option String) (v : String) → holds o v ≡ true → is_some o ≡ true
  holds-is_some none v h = ground (arith, h)
  holds-is_some (some o) v h = refl

  is_some-either :
      (o : Option String) (token : String) → is_some (if is_some o then o else some token) ≡ true
  is_some-either none token = refl
  is_some-either (some o) token = refl

  AllCarry-if :
      (id : ℕ) (b : Bool) (x y : Option String)
      → AllCarry id x
      → AllCarry id y
      → AllCarry id (if b then x else y)
  AllCarry-if id b x y hx hy = if-holds (AllCarry id) b x y (λ _. hx) (λ _. hy)

  pub claim_draft-IsSafe :
      (id : ℕ) (s : Store) (nonce : String)
      → IsSafe id s
      → IsSafe id (with_keys s (claim_draft nonce s.keys).keys)
  unfolding claim_draft
  claim_draft-IsSafe id s nonce h =
      if-holds (λ (r : Reply (Option String)). IsSafe id (with_keys s r.keys))
        (not (is_some s.keys.draft) || is_some s.keys.claimed) _ _ (λ _. h)
        (λ e. record {
          draft = tt;
          claimed = h.draft;
          result = h.result;
          reports = h.reports;
          kept = elim h.kept [ inl done ↦ inl done | inr _ ↦ inr (ground arith) ];
        })

  pub give_back_draft-IsSafe :
      (id : ℕ) (s : Store) (token nonce : String)
      → Carries id token
      → IsSafe id s
      → IsSafe id (with_keys s (give_back_draft token nonce s.keys).keys)
  unfolding give_back_draft
  give_back_draft-IsSafe id s token nonce carried h =
      if-holds (λ (r : Reply Bool). IsSafe id (with_keys s r.keys)) (is_newer s.keys.pending nonce)
        _ _ (λ _. h)
        (λ e. record {
          draft = AllCarry-if id (is_some s.keys.draft) s.keys.draft (some token) h.draft carried;
          claimed = tt;
          result = h.result;
          reports = h.reports;
          kept = elim h.kept [
            | inl done ↦ inl done
            | inr _ ↦ inr (ap (λ b. b || false || s.restarted) (is_some-either s.keys.draft token))
          ];
        })

  pub finish_claim-IsSafe :
      (id : ℕ) (s : Store) (nonce result : String)
      → IsCommitted id s
      → Tells id s result
      → IsSafe id s
      → IsSafe id (with_keys s (finish_claim nonce result s.keys))
  unfolding finish_claim
  finish_claim-IsSafe id s nonce result done told h =
      let told_keys : Keys =
        if str_eq result "" then s.keys else record s.keys { result = some result } in
      let stored : AllTell id s told_keys.result =
        if-holds (λ (k : Keys). AllTell id s k.result) (str_eq result "") _ _ (λ _. h.result)
          (λ e. elim told [ inl empty ↦ absurd (ground (arith, e, empty)) | inr r ↦ r ]) in
      let kept_keys : IsSafe id (with_keys s told_keys) =
        if-holds (λ (k : Keys). IsSafe id (with_keys s k)) (str_eq result "") s.keys
          (record s.keys { result = some result }) (λ _. h)
          (λ e. record {
            draft = h.draft;
            claimed = h.claimed;
            result = elim told [ inl empty ↦ absurd (ground (arith, e, empty)) | inr r ↦ r ];
            reports = h.reports;
            kept = inl done;
          }) in
      if-holds (λ (k : Keys). IsSafe id (with_keys s k)) (is_newer s.keys.pending nonce) told_keys
        (record told_keys { draft = none; claimed = none; pending = none; report_id = none })
        (λ _. kept_keys)
        (λ _. record {
          draft = tt;
          claimed = tt;
          result = stored;
          reports = h.reports;
          kept = inl done;
        })

  pub recover_draft-IsSafe :
      (id : ℕ) (s : Store) (token result : String)
      → Tells id s result
      → IsSafe id s
      → IsSafe id (with_keys s (recover_draft token result s.keys).keys)
  unfolding recover_draft
  recover_draft-IsSafe id s token result told h =
      if-holds (λ (r : Reply Bool). IsSafe id (with_keys s r.keys))
        (is_some s.keys.pending || is_some s.keys.draft || not (holds s.keys.claimed token)) _ _
        (λ _. h)
        (λ e.
          if-holds (λ (r : Reply Bool). IsSafe id (with_keys s r.keys)) (str_eq result "") _ _
            (λ _. record {
              draft = h.claimed;
              claimed = tt;
              result = h.result;
              reports = h.reports;
              kept = inr (ground (arith, e, holds-is_some s.keys.claimed token));
            })
            (λ e. elim told [
              | inl empty ↦ absurd (ground (arith, e, empty))
              | inr (r, opened, filed) ↦ record {
                draft = h.draft;
                claimed = tt;
                result = (r, opened, filed);
                reports = h.reports;
                kept = inl (r.case_number, filed);
              }
            ]))

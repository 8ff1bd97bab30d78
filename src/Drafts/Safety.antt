-- ===== src/Drafts/Safety.antt =====
-- Every step of every request keeps the invariant of a draft.
use open_whistle.Base.{
  ℕ, String, ◌≡◌, refl, sym, ap, ◌∙◌, inl, inr, Bool, Option, none, some, [], ◌∷◌, arith, ◌==◌,
  some_inj, if-holds,
}
use open_whistle.Drafts.Invariant.{
  recover_draft-IsSafe, finish_claim-IsSafe, give_back_draft-IsSafe, claim_draft-IsSafe,
  RequestHolds-grow, AllTell, RequestHolds, IsSafe, Grows,
}
use open_whistle.Drafts.Steps.{
  Request, idle, loaded, saving, submitting, giving_back, finishing, recovering, Store, with_keys,
  Cipher, IsSound, Act, load, edit, save, claim, no_id, invalid, create, commit, committed,
  not_committed, give_back, finish, look, recover, take_result, restart, pending_expires, ends,
  World, start, Reach, here, then_act,
}
use mathlib.Core.Path.{subst}
use Prim.Native.String.{[], ◌∷◌}
use open_whistle.Wizard.{Draft, with_report_id}
use open_whistle.Drafts.{committed_case_number, recovery, outcome}
use open_whistle.Drafts.Identifier.{with_report_id-id}
use open_whistle.Drafts.Opened.{
  committed_case_number-AtMostOne, committed_case_number-none, AllCarry-id, AllCarry-token, Edit-id,
  claim_draft-answer, outcome-Tells, recovery-Tells,
}

module _ (c : Cipher) (valid_email : String → Bool) (sound : IsSound c) where
  -- What a step leaves: the invariant, what its request goes on with, and a filed report as it was.
  record Next (id : ℕ) (s s' : Store) (r : Request) : Type 0 where
    safe : IsSafe c id s'
    mine : RequestHolds c id s' r
    grows : Grows c s s'

  same : (id : ℕ) (s : Store) (r : Request) → IsSafe c id s → RequestHolds c id s r → Next id s s r
  same id s r h m = record { safe = h; mine = m; grows = λ x e. e }

  save-IsSafe :
      (id iv fresh_id : ℕ) (s : Store) (d : Draft)
      → d.report_id ≡ some id
      → IsSafe c id s
      → IsSafe c id (
          with_keys s
            (record s.keys { draft = some (c.encrypt_draft iv (with_report_id fresh_id d)) }))
  save-IsSafe id iv fresh_id s d e h = record {
    draft =
        let (back, opened, same) = sound.draft iv (with_report_id fresh_id d) in
        (back, opened, same ∙ with_report_id-id fresh_id id d e);
    claimed = h.claimed;
    result = h.result;
    reports = h.reports;
    kept = elim h.kept [ inl done ↦ inl done | inr _ ↦ inr refl ];
  }

  commit-Next :
      (id : ℕ) (s : Store) (r : Request) (case_number : String)
      → s.reports ≡ []
      → IsSafe c id s
      → RequestHolds c id
          (record s { reports = record { id = id; case_number = case_number } ∷ [] })
          r
      → Next id s (record s { reports = record { id = id; case_number = case_number } ∷ [] }) r
  commit-Next id s r case_number none_filed h m = record {
    safe = record {
      draft = h.draft;
      claimed = h.claimed;
      result = AllTell-grow s.keys.result h.result;
      reports = inr (case_number, refl);
      kept = inl (case_number, refl);
    };
    mine = m;
    grows = λ x e. absurd (ground (arith, none_filed, e));
  }
    where
      AllTell-grow :
          (o : Option String)
          → AllTell c id s o
          → AllTell c id
              (record s { reports = record { id = id; case_number = case_number } ∷ [] })
              o
      AllTell-grow none t = tt
      AllTell-grow (some result) (r, opened, filed) = absurd (ground (arith, none_filed, filed))

  Act-Next :
      {s s' : Store} {r r' : Request} (id : ℕ)
      → Act c valid_email s r s' r'
      → IsSafe c id s
      → RequestHolds c id s r
      → Next id s s' r'
  Act-Next {s} id (load {token} {d} e opened) h m =
      same id s (loaded d) h
        (AllCarry-id c valid_email sound id s.keys.draft token d h.draft e opened)
  Act-Next {s} id (edit {d} {d'} e) h m =
      same id s (saving d') h (Edit-id c valid_email sound id e m)
  Act-Next {s} id (save {d} iv fresh_id) h m = record {
    safe = save-IsSafe id iv fresh_id s d m h;
    mine = tt;
    grows = λ x e. e;
  }
  Act-Next {s} id (claim {token} {d} nonce e opened) h m =
      let e = claim_draft-answer c valid_email sound nonce token s.keys e in
      record {
        safe = claim_draft-IsSafe c id s nonce h;
        mine = (
          AllCarry-token c valid_email sound id s.keys.draft token h.draft e,
          AllCarry-id c valid_email sound id s.keys.draft token d h.draft e opened,
        );
        grows = λ x e. e;
      }
  Act-Next {s} id (no_id {token} {nonce} {d} e) h m = same id s (giving_back token nonce d) h m
  Act-Next {s} id (invalid {token} {nonce} i e) h m = same id s (giving_back token nonce _) h m
  Act-Next {s} id (create {token} {nonce} {d} i case_number e) h m =
      same id s (submitting token nonce d (some case_number)) h m
  Act-Next {s} id (commit {token} {nonce} {case_number} {d} {id = id'} e unfiled) h m =
      let ids : id ≡ id' = some_inj (sym m.1 ∙ e) in
      let empty : s.reports ≡ [] =
        committed_case_number-none id s.reports
          (subst (λ n. committed_case_number s.reports n ≡ none) (sym ids) unfiled) h.reports in
      subst
        (λ rs. Next id s (record s { reports = rs }) (submitting token nonce d (some case_number)))
        (ap (λ n. record { id = n; case_number = case_number } ∷ []) ids
          ∙ ap (λ rs. record { id = id'; case_number = case_number } ∷ rs) (sym empty))
        (commit-Next id s (submitting token nonce d (some case_number)) case_number empty h m)
  Act-Next {s} id (committed {token} {nonce} {case_number} {d} {id = id'} {our_case} iv pin e found)
        h m =
      let filed =
        committed_case_number-AtMostOne id case_number s.reports
          (subst (λ n. committed_case_number s.reports n ≡ some case_number)
            (some_inj (sym e ∙ m.1)) found)
          h.reports in
      same id s (finishing nonce (outcome (c.encrypt_result iv) our_case case_number pin)) h (
        (case_number, filed),
        outcome-Tells c valid_email sound id iv s our_case pin case_number filed,
      )
  Act-Next {s} id (not_committed {token} {nonce} e unfiled) h m =
      same id s (giving_back token nonce _) h m
  Act-Next {s} id (give_back {token} {nonce} {d}) h m = record {
    safe = give_back_draft-IsSafe c id s token nonce m.0 h;
    mine = m.1;
    grows = λ x e. e;
  }
  Act-Next {s} id (finish {nonce} {result}) h m = record {
    safe = finish_claim-IsSafe c id s nonce result m.0 m.1 h;
    mine = tt;
    grows = λ x e. e;
  }
  Act-Next {s} id (look {token} {d} iv no_draft no_pending e opened) h m =
      same id s (recovering token (recovery (c.encrypt_result iv) s.reports d)) h (
        recovery-Tells c valid_email sound id iv s d h.reports
          (AllCarry-id c valid_email sound id s.keys.claimed token d h.claimed e opened))
  Act-Next {s} id (recover {token} {result}) h m = record {
    safe = recover_draft-IsSafe c id s token result m h;
    mine = tt;
    grows = λ x e. e;
  }
  Act-Next {s} id take_result h m = record {
    safe = record {
      draft = h.draft;
      claimed = h.claimed;
      result = tt;
      reports = h.reports;
      kept = h.kept;
    };
    mine = tt;
    grows = λ x e. e;
  }
  Act-Next {s} id restart h m = record {
    safe = record {
      draft = tt;
      claimed = h.claimed;
      result = h.result;
      reports = h.reports;
      kept = inr (ground arith);
    };
    mine = tt;
    grows = λ x e. e;
  }
  Act-Next {s} id pending_expires h m = record {
    safe = record {
      draft = h.draft;
      claimed = h.claimed;
      result = h.result;
      reports = h.reports;
      kept = h.kept;
    };
    mine = tt;
    grows = λ x e. e;
  }
  Act-Next {s} id ends h m = same id s idle h tt

  -- The invariant of the whole: the keys and reports, and every request.
  pub record IsSafeWorld (id : ℕ) (w : World c valid_email) : Type 0 where
    pub store : IsSafe c id w.store
    pub requests : (j : ℕ) → RequestHolds c id w.store (w.requests j)

  pub Reach-IsSafeWorld :
      {token : String} {d : Draft} {w : World c valid_email} (id : ℕ)
      → c.decrypt_draft token ≡ some d
      → d.report_id ≡ some id
      → Reach c valid_email (start c valid_email token) w
      → IsSafeWorld id w
  Reach-IsSafeWorld {token} {d} id opened e here = record {
    store = record {
      draft = (d, opened, e);
      claimed = tt;
      result = tt;
      reports = inl refl;
      kept = inr refl;
    };
    requests = λ j. tt;
  }
  Reach-IsSafeWorld {token} {d} id opened e (then_act {v} {s} {r} before i act) =
      let h = Reach-IsSafeWorld id opened e before in
      let next = Act-Next id act h.store (h.requests i) in
      record {
        store = next.safe;
        requests = λ j.
            if-holds (RequestHolds c id s) (j == i) r (v.requests j) (λ _. next.mine)
              (λ _. RequestHolds-grow c id v.store s (v.requests j) next.grows (h.requests j));
      }

-- ===== src/Drafts/Recovered.antt =====
-- What a reporter may rely on: no answer is lost, one draft makes one report, "received" is said of a
-- report that exists, and a draft whose submit died comes back.
use open_whistle.Base.{
  ℕ, String, ◌≡◌, refl, inl, inr, Bool, true, false, none, some, List, [], arith, Option-cases,
}
use text.Mathlib.Text.{◌==◌ as str_eq}
use text.Mathlib.TextPositions.{eq_refl}
use Prim.Native.String.{[]}
use open_whistle.Wizard.{Draft}
use open_whistle.Drafts.{
  Keys, Filed, Received, received, recover_draft, committed_case_number, recovery,
}
use open_whistle.Drafts.Steps.{
  Cipher, IsSound, look, recover, pending_expires, ends, World, start, Reach, here, then_act,
}
use open_whistle.Drafts.Invariant.{AtMostOne, IsKept, Carries, AllTell}
use open_whistle.Drafts.Opened.{AllCarry-token}
use open_whistle.Drafts.Safety.{Reach-IsSafeWorld}

-- With no other draft and no submit under way, recovery without a report renames the claimed draft.
recover_draft-back :
    (token result : String) (k : Keys)
    → k.draft ≡ none
    → k.pending ≡ none
    → k.claimed ≡ some token
    → str_eq result "" ≡ true
    → (recover_draft token result k).keys.draft ≡ some token
unfolding recover_draft
recover_draft-back token result k no_draft no_pending held empty =
    ground (arith, no_draft, no_pending, held, empty, eq_refl token)

recovery-unfiled :
    (encrypt_result : Received → String) (reports : List Filed) (d : Draft)
    → reports ≡ []
    → str_eq (recovery encrypt_result reports d) "" ≡ true
unfolding recovery committed_case_number
recovery-unfiled encrypt_result reports d h =
    rw h
      (elim d.report_id
        as (λ o.
          str_eq
            (elim o [
              | none ↦ ""
              | some id ↦ elim (committed_case_number [] id) [
                | none ↦ ""
                | some n ↦ encrypt_result (received n)
              ]
            ])
            ""
          ≡ true) [ none ↦ refl | some id ↦ refl ])

module _ (c : Cipher) (valid_email : String → Bool) (sound : IsSound c) where
  -- However the requests on a draft with an identifier interleave, at most one report comes of
  -- it, and it has that identifier.
  pub Reach-AtMostOne :
      {token : String} {d : Draft} {w : World c valid_email} (id : ℕ)
      → c.decrypt_draft token ≡ some d
      → d.report_id ≡ some id
      → Reach c valid_email (start c valid_email token) w
      → AtMostOne id w.store.reports
  Reach-AtMostOne id opened e reached =
      (Reach-IsSafeWorld c valid_email sound id opened e reached).store.reports

  -- However the requests on a draft interleave, end or die, its answers are kept: the report is
  -- filed, or the draft or the claimed draft is there, or the reporter asked for an empty wizard.
  -- The draft is one with an identifier, and decryption gives identifiers and case numbers back.
  pub Reach-IsKept :
      {token : String} {d : Draft} {w : World c valid_email} (id : ℕ)
      → c.decrypt_draft token ≡ some d
      → d.report_id ≡ some id
      → Reach c valid_email (start c valid_email token) w
      → IsKept id w.store
  Reach-IsKept id opened e reached =
      (Reach-IsSafeWorld c valid_email sound id opened e reached).store.kept

  -- However the requests on a draft with an identifier interleave, a result that is stored for
  -- the success page decrypts, and names the case number of the report that was filed.
  pub Reach-AllTell :
      {token : String} {d : Draft} {w : World c valid_email} (id : ℕ)
      → c.decrypt_draft token ≡ some d
      → d.report_id ≡ some id
      → Reach c valid_email (start c valid_email token) w
      → AllTell c id w.store w.store.keys.result
  Reach-AllTell id opened e reached =
      (Reach-IsSafeWorld c valid_email sound id opened e reached).store.result

  -- The reporter has a draft with the identifier again, and nothing was filed.
  pub record IsBack (id : ℕ) (w : World c valid_email) : Type 0 where
    pub token : String
    pub here : w.store.keys.draft ≡ some token
    pub same : Carries c id token
    pub unfiled : w.store.reports ≡ []

  claimed-IsBack :
      {d : Draft} (id : ℕ) (w : World c valid_email) (token : String)
      → w.store.reports ≡ []
      → w.store.keys.draft ≡ none
      → w.store.keys.claimed ≡ some token
      → c.decrypt_draft token ≡ some d
      → d.report_id ≡ some id
      → (w' : World c valid_email) × Reach c valid_email w w' × IsBack id w'
  claimed-IsBack {d} id w token unfiled no_draft held opened e = (
    _,
    then_act
        (then_act (then_act (then_act here 0 ends) 0 pending_expires) 0
          (look 0 no_draft refl held opened))
        0 recover,
    record {
      token = token;
      here =
          recover_draft-back token (recovery (c.encrypt_result 0) w.store.reports d)
            (record w.store.keys { pending = none }) no_draft refl held
            (recovery-unfiled _ w.store.reports d unfiled);
      same = (d, opened, e);
      unfiled = unfiled;
    },
  )

  -- In every state that the requests on a draft with an identifier reach, if no report was filed
  -- and the reporter did not ask for an empty wizard, some further steps lead to a state in which
  -- the reporter has a draft with that identifier again, with nothing filed.
  pub draft-IsBack :
      {token : String} {d : Draft} {w : World c valid_email} (id : ℕ)
      → c.decrypt_draft token ≡ some d
      → d.report_id ≡ some id
      → Reach c valid_email (start c valid_email token) w
      → w.store.reports ≡ []
      → w.store.restarted ≡ false
      → (w' : World c valid_email) × Reach c valid_email w w' × IsBack id w'
  draft-IsBack {token} {d} {w} id opened e reached unfiled not_restarted =
      let safe = (Reach-IsSafeWorld c valid_email sound id opened e reached).store in
      elim (Option-cases w.store.keys.draft) [
        | inr (t, is_there) ↦ (
          w,
          here,
          record {
            token = t;
            here = is_there;
            same = AllCarry-token c valid_email sound id w.store.keys.draft t safe.draft is_there;
            unfiled = unfiled;
          },
        )
        | inl no_draft ↦ elim (Option-cases w.store.keys.claimed) [
          | inl no_claim ↦
              absurd (ground (arith, safe.kept, no_draft, no_claim, unfiled, not_restarted))
          | inr (t, held) ↦
              let carried =
                AllCarry-token c valid_email sound id w.store.keys.claimed t safe.claimed held in
              claimed-IsBack id w t unfiled no_draft held carried.1 carried.2
        ]
      ]

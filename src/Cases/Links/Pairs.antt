-- ===== src/Cases/Links/Pairs.antt =====
-- The table of links under the two link routes.
use open_whistle.Base.{
  is_some-none, find-none, ℕ, ◌<◌, String, ◌≡◌, ◌≢◌, inl, inr, Bool, false, not, ◌&&◌, ◌||◌, none,
  some, List, [], ◌∷◌, ◌++◌, arith, ◌==◌, is_some, Bool-cases, keep, find, All, All-append,
  All-keep,
}
use open_whistle.Cases.Links.{
  strip, normalize_ids, get_link, get_link_between, link_cases, unlink_cases,
  get_report_by_case_number, link_report, unlink_report,
}
use open_whistle.Base.Outcome.{ok, demand, present, >>=-eq-ok, demand-eq-ok, present-eq-ok}
use open_whistle.Models.{User, Report, CaseLink, Db, Settings, log}
use open_whistle.Access.{get_authorized_report, can_access_report}

abbrev is_between : ℕ → ℕ → CaseLink → Bool
is_between a b l = (l.report_id_a == a) && (l.report_id_b == b)

-- No case is linked with itself, and no pair twice.
unfoldable pub IsTidy : List CaseLink → Type 0
IsTidy [] = Unit
IsTidy (l ∷ ls) =
    (l.report_id_a < l.report_id_b)
    × All (λ m. is_between l.report_id_a l.report_id_b m ≡ false) ls
    × IsTidy ls

append-IsTidy :
    (ls : List CaseLink) (new : CaseLink)
    → new.report_id_a < new.report_id_b
    → find (is_between new.report_id_a new.report_id_b) ls ≡ none
    → IsTidy ls
    → IsTidy (ls ++ new ∷ [])
unfolding IsTidy
append-IsTidy [] new h fresh t = (h, tt, tt)
append-IsTidy (l ∷ ls) new h fresh t =
    let (other, rest) = find-none (is_between new.report_id_a new.report_id_b) l ls fresh in
    (
      t.0,
      All-append (λ m. is_between l.report_id_a l.report_id_b m ≡ false) ls (new ∷ []) t.1
          (ground arith, tt),
      append-IsTidy ls new h rest t.2,
    )

keep-IsTidy : (p : CaseLink → Bool) (ls : List CaseLink) → IsTidy ls → IsTidy (keep p ls)
unfolding IsTidy
keep-IsTidy p [] t = tt
keep-IsTidy p (l ∷ ls) t =
    let rest = keep-IsTidy p ls t.2 in
    elim (Bool-cases (p l)) [
      | inl e ↦
          rw e
            (t.0, All-keep (λ m. is_between l.report_id_a l.report_id_b m ≡ false) p ls t.1, rest)
      | inr e ↦ rw e rest
    ]

module _ (s : Settings) where
  link_report-links :
      (upper : String → String) (link_id : ℕ) (db db' : Db) (u : User) (id : ℕ)
      (case_number : String)
      → link_report s upper link_id db u id case_number ≡ ok db'
      → (r : Report) × (other : Report) × (other.id ≢ r.id)
        × (get_link_between db r.id other.id ≡ none)
        × (db'.links ≡ (link_cases link_id db r other u).links)
  unfolding link_report log
  link_report-links upper link_id db db' u id case_number h =
      let (r, _, h₁) = >>=-eq-ok (get_authorized_report s db id u) _ h in
      let (other, _, h₂) =
        >>=-eq-ok (present (get_report_by_case_number db (upper (strip case_number))) 404) _ h₁ in
      let (_, _, h₃) = >>=-eq-ok (demand (can_access_report s u other) 404) _ h₂ in
      let (_, distinct, h₄) = >>=-eq-ok (demand (not (other.id == r.id)) 400) _ h₃ in
      let (_, free, h₅) =
        >>=-eq-ok (demand (not (is_some (get_link_between db r.id other.id))) 409) _ h₄ in
      (
        r,
        other,
        ground (arith, demand-eq-ok (not (other.id == r.id)) 400 distinct),
        is_some-none (get_link_between db r.id other.id) (
            ground
              (arith, demand-eq-ok (not (is_some (get_link_between db r.id other.id))) 409 free)),
        ground arith,
      )

  link_cases-IsTidy :
      (link_id : ℕ) (db : Db) (r other : Report) (u : User)
      → other.id ≢ r.id
      → get_link_between db r.id other.id ≡ none
      → IsTidy db.links
      → IsTidy (link_cases link_id db r other u).links
  unfolding link_cases get_link_between normalize_ids
  link_cases-IsTidy link_id db r other u distinct free t =
      append-IsTidy db.links
        (record {
          id = link_id;
          report_id_a = (normalize_ids r.id other.id).0;
          report_id_b = (normalize_ids r.id other.id).1;
          linked_by_id = some u.id;
          linked_by_username = u.username;
        })
        (ground arith) free t

  -- Adding a link keeps the table tidy: no case is linked with itself, the lesser identifier
  -- stands first, and no pair stands twice.
  pub link_report-IsTidy :
      (upper : String → String) (link_id : ℕ) (db db' : Db) (u : User) (id : ℕ)
      (case_number : String)
      → link_report s upper link_id db u id case_number ≡ ok db'
      → IsTidy db.links
      → IsTidy db'.links
  link_report-IsTidy upper link_id db db' u id case_number h t =
      let (r, other, distinct, free, links) =
        link_report-links upper link_id db db' u id case_number h in
      rw links (link_cases-IsTidy link_id db r other u distinct free t)

  unlink_report-links :
      (db db' : Db) (u : User) (id link_id : ℕ)
      → unlink_report s db u id link_id ≡ ok db'
      → (l : CaseLink) × (get_link db link_id ≡ some l)
        × (db'.links ≡ keep (λ m. not (m.id == l.id)) db.links)
  unfolding unlink_report log unlink_cases
  unlink_report-links db db' u id link_id h =
      let (r, _, h₁) = >>=-eq-ok (get_authorized_report s db id u) _ h in
      let (l, found, h₂) = >>=-eq-ok (present (get_link db link_id) 404) _ h₁ in
      let (_, _, h₃) =
        >>=-eq-ok (demand ((l.report_id_a == r.id) || (l.report_id_b == r.id)) 404) _ h₂ in
      (l, present-eq-ok (get_link db link_id) 404 found, ground arith)

  -- Removing a link keeps the table tidy.
  pub unlink_report-IsTidy :
      (db db' : Db) (u : User) (id link_id : ℕ)
      → unlink_report s db u id link_id ≡ ok db'
      → IsTidy db.links
      → IsTidy db'.links
  unlink_report-IsTidy db db' u id link_id h t =
      let (l, _, links) = unlink_report-links db db' u id link_id h in
      rw links (keep-IsTidy (λ m. not (m.id == l.id)) db.links t)

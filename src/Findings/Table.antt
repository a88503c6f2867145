-- ===== src/Findings/Table.antt =====
-- The table of models.ScanFinding, and a report brought in step with it: reconcileFindings of
-- backend/handlers/scan_findings.go.
use commitkube.Base.{
  ℕ, ◌+◌, String, Bool, true, false, not, Option, none, some, List, [], ◌∷◌, ◌++◌, ◌&&◌, ◌||◌, ltb,
  ◌==◌, ◌=s◌, if◌then◌else◌, length, find_first, any_where, select_where, update_where, zero, suc,
}
use commitkube.Findings.Finding.{Finding, Identity, identity, same_identity}

-- models.ScanFinding
pub record Row : Type 0 where
  pub id : ℕ
  pub repo_name : String
  pub domain : String
  pub kind : String
  pub target : String
  pub vuln_id : String
  pub pkg : String
  pub line : ℕ
  pub version : String
  pub fixed : String
  pub severity : String
  pub title : String
  pub cwe : String
  pub first_seen : ℕ
  pub last_seen : ℕ
  pub resolved_at : Option ℕ

-- findingFromRow
unfoldable pub finding_from_row : Row → Finding
finding_from_row r = record {
  domain = r.domain;
  kind = r.kind;
  target = r.target;
  vuln_id = r.vuln_id;
  pkg = r.pkg;
  line = r.line;
  version = r.version;
  fixed = r.fixed;
  severity = r.severity;
  title = r.title;
  cwe = r.cwe;
  suppressed = false;
  suppression = none;
}

abbrev pub row_identity : Row → Identity
row_identity r = identity (finding_from_row r)

abbrev pub is_resolved : Row → Bool
is_resolved r = elim r.resolved_at [ none ↦ false | some t ↦ true ]

-- The rows in the order of their keys, and the next key.
pub record Table : Type 0 where
  pub rows : List Row
  pub next_id : ℕ

-- `repo_name = ? AND domain = ?`
abbrev pub is_of : String → String → Row → Bool
is_of repo domain r = r.repo_name =s repo && r.domain =s domain

abbrev pub has_identity : Identity → Row → Bool
has_identity i r = same_identity (row_identity r) i

-- The values of `byID`: of the rows of one identity the last stays in the map.
unfoldable pub latest : List Row → List Row
latest [] = []
latest (r ∷ rs) =
    let rest = latest rs in if any_where (has_identity (row_identity r)) rs then rest else r ∷ rest

-- `byID[id]`
unfoldable pub by_identity : Identity → List Row → Option Row
by_identity i existing = find_first (has_identity i) (latest existing)

-- What the loop over the report carries: the rows as written so far, and its variables.
pub record Pass : Type 0 where
  pub rows : List Row
  pub seen : List Identity
  pub touched : List ℕ
  pub created : List Row
  pub new_count : ℕ

-- `seen[id]`
abbrev pub is_seen : Identity → List Identity → Bool
is_seen i = any_where (λ j. same_identity j i)

-- A row that is created; its key comes with the insert.
unfoldable pub new_row : String → ℕ → Finding → Row
new_row repo at f = record {
  id = 0;
  repo_name = repo;
  domain = f.domain;
  kind = f.kind;
  target = f.target;
  vuln_id = f.vuln_id;
  pkg = f.pkg;
  line = f.line;
  version = f.version;
  fixed = f.fixed;
  severity = f.severity;
  title = f.title;
  cwe = f.cwe;
  first_seen = at;
  last_seen = at;
  resolved_at = none;
}

unfoldable pub refreshed : ℕ → Finding → Row → Row
refreshed at f r = record r {
  last_seen = at;
  line = f.line;
  severity = f.severity;
  fixed = f.fixed;
  version = f.version;
  title = f.title;
  cwe = f.cwe;
}

unfoldable pub reopened : ℕ → Finding → Row → Row
reopened at f r = record (refreshed at f r) { resolved_at = none; first_seen = at }

unfoldable pub differs : Row → Finding → Bool
differs r f =
    not (r.severity =s f.severity)
    || not (r.fixed =s f.fixed)
    || not (r.version =s f.version)
    || not (r.title =s f.title)
    || not (r.line == f.line)
    || not (r.cwe =s f.cwe)

abbrev pub has_id : ℕ → Row → Bool
has_id i r = r.id == i

-- The `switch` for a finding that was not met before in the report.
unfoldable pub place : String → ℕ → Finding → Option Row → Pass → Pass
place repo at f none p = record p {
  created = p.created ++ new_row repo at f ∷ [];
  new_count = p.new_count + 1;
}
place repo at f (some cur) p =
    if is_resolved cur
    then record p {
      rows = update_where (has_id cur.id) (reopened at f) p.rows;
      new_count = p.new_count + 1;
    }
    else if differs cur f
    then record p { rows = update_where (has_id cur.id) (refreshed at f) p.rows }
    else record p { touched = p.touched ++ cur.id ∷ [] }

unfoldable pub visit : String → ℕ → List Row → Finding → Pass → Pass
visit repo at existing f p =
    if is_seen (identity f) p.seen
    then p
    else place repo at f (by_identity (identity f) existing)
        (record p { seen = identity f ∷ p.seen })

unfoldable pub visit_all : String → ℕ → List Row → List Finding → Pass → Pass
visit_all repo at existing [] p = p
visit_all repo at existing (f ∷ fs) p = visit_all repo at existing fs (visit repo at existing f p)

abbrev pub mem_text : String → List String → Bool
mem_text k = any_where (λ j. j =s k)

abbrev pub mem_id : ℕ → List ℕ → Bool
mem_id k = any_where (λ j. j == k)

unfoldable pub is_gone : List Identity → List String → Row → Bool
is_gone seen skip r =
    not (is_resolved r) && not (is_seen (row_identity r) seen) && not (mem_text r.kind skip)

abbrev pub row_ids : List Row → List ℕ
row_ids [] = []
row_ids (r ∷ rs) = r.id ∷ row_ids rs

unfoldable pub take : ℕ → List ℕ → List ℕ
take zero ids = []
take (suc n) [] = []
take (suc n) (i ∷ ids) = i ∷ take n ids

unfoldable pub drop : ℕ → List ℕ → List ℕ
drop zero ids = ids
drop (suc n) [] = []
drop (suc n) (i ∷ ids) = drop n ids

-- The loop of `chunkIDs`; each round but the last takes a step of the fuel.
unfoldable pub chunk_loop : ℕ → List ℕ → ℕ → List (List ℕ)
chunk_loop zero ids size = []
chunk_loop (suc fuel) ids size =
    let rest = chunk_loop fuel (drop size ids) size in
    if ltb size (length ids)
    then take size ids ∷ rest
    else if ltb 0 (length ids)
    then ids ∷ []
    else []

-- `chunkIDs`
unfoldable pub chunk_ids : List ℕ → ℕ → List (List ℕ)
chunk_ids ids size = chunk_loop (length ids + 1) ids size

-- `id IN ?`
abbrev pub is_among : List ℕ → Row → Bool
is_among ids r = mem_id r.id ids

unfoldable pub update_chunks : (Row → Row) → List (List ℕ) → List Row → List Row
update_chunks change [] rows = rows
update_chunks change (ids ∷ chunks) rows =
    update_chunks change chunks (update_where (is_among ids) change rows)

abbrev pub touch : ℕ → Row → Row
touch at r = record r { last_seen = at }

abbrev pub close : ℕ → Row → Row
close at r = record r { resolved_at = some at }

-- `CreateInBatches`: the rows take the next keys in their order.
unfoldable pub create_all : List Row → Table → Table
create_all [] t = t
create_all (r ∷ rs) t =
    create_all rs
      (record { rows = t.rows ++ record r { id = t.next_id } ∷ []; next_id = t.next_id + 1 })

abbrev pub chunk_size : ℕ
chunk_size = 500

-- What follows the loop over the report.
unfoldable pub finish : ℕ → List String → List Row → Pass → ℕ → Table × ℕ
finish at skip existing p next =
    let gone = row_ids (select_where (is_gone p.seen skip) (latest existing)) in
    let touched = update_chunks (touch at) (chunk_ids p.touched chunk_size) p.rows in
    let closed = update_chunks (close at) (chunk_ids gone chunk_size) touched in
    (create_all p.created (record { rows = closed; next_id = next }), p.new_count)

-- The transaction; no write of it meets an error.
unfoldable pub reconcile : String → String → List Finding → ℕ → List String → Table → Table × ℕ
reconcile repo domain report at skip t =
    let existing = select_where (is_of repo domain) t.rows in
    finish at skip existing
      (visit_all repo at existing report
        (record { rows = t.rows; seen = []; touched = []; created = []; new_count = 0 }))
      t.next_id

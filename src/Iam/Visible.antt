-- ===== src/Iam/Visible.antt =====
-- Which namespaces a user may see: backend/handlers/iam.go.
use commitkube.Base.{
  subst, ℕ, ◌≡◌, refl, String, Bool, true, false, not, ◌&&◌, ◌||◌, some, List, [], ◌∷◌, ap, ◌==◌,
  ◌=s◌, if◌then◌else◌, any_where, any_where-snoc, any_where-weaken, select_where, sort_stable,
  insert_sorted, arith, =s_self, eq_iff,
}
use commitkube.Iam.Policy.{
  Policy, permissions_for, perm_cluster_write, SubjectType, user, group, is_user_row,
}
use commitkube.Iam.Grants.{same_subject, subject_of}
use commitkube.Iam.Scopes.{
  Scope, ScopeRequest, new_scope, is_scope, is_scope_of, distinct, namespaces_of, sorted_or_nil,
  allowed_namespaces, namespace_allowed, sees, add_namespace_scope, created,
}

-- Whether a text is on a list.
abbrev pub on_list : String → List String → Bool
on_list ns = any_where (λ n. n =s ns)

on_list-distinct : (ns : String) (ls : List String) → on_list ns (distinct ls) ≡ on_list ns ls
unfolding distinct any_where
on_list-distinct ns [] = refl
on_list-distinct ns (l ∷ ls) = ground (
  arith,
  on_list-distinct ns ls,
  eq_iff l ns,
  λ (e : l ≡ ns). ap (λ x. any_where (λ m. m =s x) ls) e,
)

abbrev has_any : List String → Bool
has_any [] = false
has_any (_ ∷ _) = true

on_list-namespaces_of :
    (ns : String) (q : Scope → Bool) (ss : List Scope)
    → on_list ns (namespaces_of (select_where q ss)) ≡ any_where (λ s. q s && s.namespace =s ns) ss
unfolding namespaces_of select_where any_where
on_list-namespaces_of ns q [] = refl
on_list-namespaces_of ns q (s ∷ ss) = ground (arith, on_list-namespaces_of ns q ss)

has_any-namespaces_of :
    (q : Scope → Bool) (ss : List Scope)
    → has_any (namespaces_of (select_where q ss)) ≡ any_where q ss
unfolding namespaces_of select_where any_where
has_any-namespaces_of q [] = refl
has_any-namespaces_of q (s ∷ ss) = ground (arith, has_any-namespaces_of q ss)

module _ (less : String → String → Bool) where
  on_list-insert_sorted :
      (ns l : String) (ls : List String)
      → on_list ns (insert_sorted less l ls) ≡ (l =s ns || on_list ns ls)
  unfolding any_where insert_sorted
  on_list-insert_sorted ns l [] = ground arith
  on_list-insert_sorted ns l (x ∷ ls) = ground (arith, on_list-insert_sorted ns l ls)

  on_list-sort : (ns : String) (ls : List String) → on_list ns (sort_stable less ls) ≡ on_list ns ls
  unfolding any_where sort_stable
  on_list-sort ns [] = refl
  on_list-sort ns (l ∷ ls) =
      ground (arith, on_list-sort ns ls, on_list-insert_sorted ns l (sort_stable less ls))

  on_list-sorted_or_nil :
      (ns : String) (ls : List String)
      → sees (sorted_or_nil less ls) ns ≡ (if has_any ls then on_list ns ls else true)
  unfolding sorted_or_nil sees
  on_list-sorted_or_nil ns [] = refl
  on_list-sorted_or_nil ns (l ∷ ls) = on_list-sort ns (l ∷ ls)

  has_any-distinct : (ls : List String) → has_any (distinct ls) ≡ has_any ls
  unfolding distinct any_where
  has_any-distinct [] = refl
  has_any-distinct (l ∷ []) = refl
  has_any-distinct (l ∷ m ∷ ls) = ground (arith, has_any-distinct (m ∷ ls))

  same_subject-user :
      (t : SubjectType) (j i : ℕ)
      → (same_subject t user && j == i) ≡ true
      → is_user_row i t j ≡ true
  same_subject-user user j i h = ground arith
  same_subject-user group j i h = absurd (ground arith)

  sees-sorted_or_nil :
      (ns : String) (ls : List String)
      → sees (sorted_or_nil less (distinct ls)) ns ≡ (not (has_any ls) || on_list ns ls)
  sees-sorted_or_nil ns ls =
      ground
        (arith, on_list-sorted_or_nil ns (distinct ls), has_any-distinct ls, on_list-distinct ns ls)

  -- A user sees a namespace of a cluster if he administers clusters, if no row of his or of his
  -- groups is about the cluster, or if one of those rows names the namespace, and only then.
  pub namespace_allowed-decides :
      (p : Policy) (scopes : List Scope) (uid : ℕ) (role : String) (cluster : ℕ) (ns : String)
      → namespace_allowed less p scopes uid role (some cluster) ns ≡ (
          permissions_for p uid role perm_cluster_write
          || not (any_where (is_scope_of p uid cluster) scopes)
          || any_where (λ s. is_scope_of p uid cluster s && s.namespace =s ns) scopes)
  unfolding namespace_allowed allowed_namespaces sees
  namespace_allowed-decides p scopes uid role cluster ns = ground (
    arith,
    sees-sorted_or_nil ns (namespaces_of (select_where (is_scope_of p uid cluster) scopes)),
    on_list-namespaces_of ns (is_scope_of p uid cluster) scopes,
    has_any-namespaces_of (is_scope_of p uid cluster) scopes,
  )

  is_scope-user :
      (p : Policy) (i c : ℕ) (n : String) (s : Scope)
      → is_scope user i c n s ≡ true
      → (is_scope_of p i c s && s.namespace =s n) ≡ true
  is_scope-user p i c n s h = ground (arith, same_subject-user s.subject_type s.subject_id i)

  is_scope-new_scope :
      (caller next : ℕ) (req : ScopeRequest)
      → is_scope
          (subject_of req.subject_type)
          req.subject_id
          req.cluster_id
          req.namespace
          (new_scope caller next req)
        ≡ true
  is_scope-new_scope caller next req =
      ground (arith, same_self (subject_of req.subject_type), =s_self req.namespace)
    where
      same_self : (t : SubjectType) → same_subject t t ≡ true
      same_self user = refl
      same_self group = refl

  -- The row of a request, once accepted, is in the table.
  any_where-add_namespace_scope :
      (q : Scope → Bool) (caller next : ℕ) (req : ScopeRequest) (scopes : List Scope)
      → ((s : Scope)
          → is_scope (subject_of req.subject_type) req.subject_id req.cluster_id req.namespace s
            ≡ true
          → q s ≡ true)
      → (add_namespace_scope caller next req scopes).1 ≡ created
      → any_where q (add_namespace_scope caller next req scopes).0 ≡ true
  unfolding add_namespace_scope
  any_where-add_namespace_scope q caller next req scopes h e = ground (
    arith,
    h (new_scope caller next req) (is_scope-new_scope caller next req),
    any_where-snoc q scopes (new_scope caller next req),
    any_where-weaken
        (is_scope (subject_of req.subject_type) req.subject_id req.cluster_id req.namespace) q
        scopes h,
  )

  add_namespace_scope-others :
      (q : Scope → Bool) (caller next : ℕ) (req : ScopeRequest) (scopes : List Scope)
      → ((s : Scope) → s.namespace ≡ req.namespace → q s ≡ false)
      → any_where q (add_namespace_scope caller next req scopes).0 ≡ any_where q scopes
  unfolding add_namespace_scope
  add_namespace_scope-others q caller next req scopes h = ground (
    arith,
    h (new_scope caller next req) refl,
    any_where-snoc q scopes (new_scope caller next req),
  )

  module _ (p : Policy) (scopes : List Scope) (caller next : ℕ) (req : ScopeRequest) where
    abbrev pub mine : Scope → Bool
    mine = is_scope_of p req.subject_id req.cluster_id

    abbrev pub mine_in : String → Scope → Bool
    mine_in ns s = mine s && s.namespace =s ns

    row-mine_in :
        req.subject_type ≡ "user"
        → (s : Scope)
        → is_scope (subject_of req.subject_type) req.subject_id req.cluster_id req.namespace s
          ≡ true
        → mine_in req.namespace s ≡ true
    unfolding subject_of
    row-mine_in is_user s e =
        is_scope-user p req.subject_id req.cluster_id req.namespace s (rw is_user at e)

    -- An accepted scope for a user shows him that namespace, and of the others those that a row
    -- named before, unless he administers clusters, which shows him all.
    pub add_namespace_scope-narrows :
        (role ns : String)
        → req.subject_type ≡ "user"
        → (add_namespace_scope caller next req scopes).1 ≡ created
        → namespace_allowed less p
            (add_namespace_scope caller next req scopes).0
            req.subject_id
            role
            (some req.cluster_id)
            ns
          ≡ (permissions_for p req.subject_id role perm_cluster_write
              || req.namespace =s ns
              || any_where (mine_in ns) scopes)
    add_namespace_scope-narrows role ns is_user h = ground (
      arith,
      namespace_allowed-decides p after req.subject_id role req.cluster_id ns,
      any_where-add_namespace_scope mine caller next req scopes mine_row h,
      named,
      eq_iff req.namespace ns,
      add_namespace_scope-others (mine_in ns) caller next req scopes,
    )
      where
        after : List Scope
        after = (add_namespace_scope caller next req scopes).0

        mine_row :
            (s : Scope)
            → is_scope (subject_of req.subject_type) req.subject_id req.cluster_id req.namespace s
              ≡ true
            → mine s ≡ true
        mine_row s e = ground (arith, row-mine_in is_user s e)

        named : req.namespace ≡ ns → any_where (mine_in ns) after ≡ true
        named e =
            subst (λ n. any_where (mine_in n) after ≡ true) e
              (any_where-add_namespace_scope (mine_in req.namespace) caller next req scopes
                (row-mine_in is_user) h)

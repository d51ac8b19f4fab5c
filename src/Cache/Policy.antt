-- ===== src/Cache/Policy.antt =====
-- Which refs a job reads its cache from and writes it to: internal/cache/policy.go.
pub mod Laws
use open_actions.Base.{
  ℕ, eqb, String, Bool, true, false, not, ◌&&◌, ◌||◌, ◌==◌, starts_with, List, [], ◌∷◌, any, all,
  if◌then◌else◌,
}
use open_actions.Base.Dict.{mem}
use open_actions.Base.Text.{◌⧺◌}

pub record Tenant : Type 0 where
  pub project_uid : String
  pub repository_id : ℕ

-- `==` on tenants.
unfoldable pub same_tenant : Tenant → Tenant → Bool
same_tenant a b = a.project_uid == b.project_uid && eqb a.repository_id b.repository_id

pub record Access : Type 0 where
  pub read_refs : List String
  pub write_ref : String
  pub mode : String

-- ValidMode.
unfoldable pub valid_mode : String → Bool
valid_mode mode = mem mode ("read" ∷ "write" ∷ "write-only" ∷ "none" ∷ [])

-- Access.Validate, which holds if there is no error.
unfoldable pub validates : Access → Bool
unfolding valid_mode
validates a =
    valid_mode a.mode
    && starts_with a.write_ref "refs/"
    && not (elim a.read_refs [ [] ↦ true | _ ∷ _ ↦ false ])
    && all (λ r. starts_with r "refs/") a.read_refs

unfoldable pub readable : Access → Bool
readable a = a.mode == "read" || a.mode == "write"

unfoldable pub writable : Access → Bool
writable a = a.mode == "write" || a.mode == "write-only"

-- The events whose jobs write the cache of the default branch.
abbrev pub trusted_events : List String
trusted_events =
    "push" ∷ "workflow_dispatch" ∷ "repository_dispatch" ∷ "delete" ∷ "registry_package"
    ∷ "page_build" ∷ "schedule" ∷ []

-- The mode where none is given.
unfoldable pub default_mode : String → String → String → String
default_mode event ref default_branch =
    if ref == "refs/heads/" ⧺ default_branch && not (mem event trusted_events)
    then "read"
    else "write"

-- The refs in order, before repetitions are dropped.
unfoldable pub candidate_refs : String → String → String → String → List String
candidate_refs event ref base_ref default_branch =
    let last : List String =
      if default_branch == "" then [] else ("refs/heads/" ⧺ default_branch) ∷ [] in
    ref
    ∷ (if event == "pull_request" && not (base_ref == "")
        then ("refs/heads/" ⧺ base_ref) ∷ last
        else last)

-- `refs` without the elements of `seen`, each once.
unfoldable pub unique_after : List String → List String → List String
unique_after seen [] = []
unique_after seen (r ∷ refs) =
    let skip = unique_after seen refs in
    let take = unique_after (r ∷ seen) refs in if mem r seen then skip else r ∷ take

-- ResolveAccess.
unfoldable pub resolve_access : String → String → String → String → String → Access
unfolding default_mode candidate_refs unique_after
resolve_access event ref base_ref default_branch mode = record {
  read_refs = unique_after [] (candidate_refs event ref base_ref default_branch);
  write_ref = ref;
  mode = if mode == "" then default_mode event ref default_branch else mode;
}

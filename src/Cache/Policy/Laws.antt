-- ===== src/Cache/Policy/Laws.antt =====
-- What ResolveAccess lets a job read and write.
use open_actions.Base.{
  String, Bool, true, not, ◌&&◌, ◌||◌, ◌==◌, ◌≡◌, ◌⊎◌, refl, ap, ◌∙◌, List, [], ◌∷◌, all, arith,
  eq_iff, starts_with, starts_with-append, if◌then◌else◌, Bool-cases, inl, inr,
}
use text.Mathlib.TextLemmas.{append_assoc}
use open_actions.Base.Dict.{mem}
use open_actions.Base.Text.{◌⧺◌}
use open_actions.Cache.Policy.{
  valid_mode, validates, default_mode, candidate_refs, unique_after, resolve_access, trusted_events,
}

mem-unique_after :
    (k : String) (refs seen : List String)
    → mem k (unique_after seen refs) ≡ (mem k refs && not (mem k seen))
unfolding unique_after
mem-unique_after k [] seen = refl
mem-unique_after k (r ∷ refs) seen =
    ground (arith, eq_iff k r, mem-unique_after k refs seen, mem-unique_after k refs (r ∷ seen))

all-unique_after :
    (p : String → Bool) (refs seen : List String)
    → all p refs ≡ true
    → all p (unique_after seen refs) ≡ true
unfolding unique_after
all-unique_after p [] seen h = refl
all-unique_after p (r ∷ refs) seen h =
    ground (arith, all-unique_after p refs seen, all-unique_after p refs (r ∷ seen))

-- A job reads the cache of its own ref, of the base of its pull request, and of the default branch,
-- and of no other ref.
pub resolve_access-reads :
    (event ref base_ref default_branch mode r : String)
    → mem r (resolve_access event ref base_ref default_branch mode).read_refs ≡ (
        r == ref
        || (event == "pull_request" && not (base_ref == "")) && r == "refs/heads/" ⧺ base_ref
        || not (default_branch == "") && r == "refs/heads/" ⧺ default_branch)
unfolding resolve_access candidate_refs
resolve_access-reads event ref base_ref default_branch mode r = rw mem-unique_after (ground arith)

abbrev is_default : String → String → Bool
is_default ref default_branch = ref == "refs/heads/" ⧺ default_branch

default_mode-cases :
    (event ref default_branch : String)
    → (default_mode event ref default_branch ≡ "read")
      ⊎ (default_mode event ref default_branch ≡ "write")
unfolding default_mode
default_mode-cases event ref default_branch =
    elim (Bool-cases (is_default ref default_branch && not (mem event trusted_events))) [
      | inl e ↦ inl (rw e refl)
      | inr e ↦ inr (rw e refl)
    ]

default_mode-valid :
    (event ref default_branch : String) → valid_mode (default_mode event ref default_branch) ≡ true
unfolding valid_mode
default_mode-valid event ref default_branch = elim (default_mode-cases event ref default_branch) [
  | inl mode ↦ rw mode refl
  | inr mode ↦ rw mode refl
]

chosen_valid :
    (event ref default_branch mode : String)
    → (mode == "" || valid_mode mode) ≡ true
    → valid_mode (if mode == "" then default_mode event ref default_branch else mode) ≡ true
chosen_valid event ref default_branch mode valid =
    ground (arith, default_mode-valid event ref default_branch)

branch_ref-full : (branch : String) → starts_with ("refs/heads/" ⧺ branch) "refs/" ≡ true
branch_ref-full branch =
    ap (λ r. starts_with r "refs/") (append_assoc "refs/" "heads/" branch)
    ∙ starts_with-append "refs/" ("heads/" ⧺ branch)

abbrev is_full : String → Bool
is_full r = starts_with r "refs/"

candidate_refs-full :
    (event ref base_ref default_branch : String)
    → is_full ref ≡ true
    → all is_full (candidate_refs event ref base_ref default_branch) ≡ true
unfolding candidate_refs
candidate_refs-full event ref base_ref default_branch full =
    ground (arith, branch_ref-full base_ref, branch_ref-full default_branch)

-- What ResolveAccess makes of a full ref and of a valid or absent mode passes Validate.
pub resolve_access-validates :
    (event ref base_ref default_branch mode : String)
    → starts_with ref "refs/" ≡ true
    → (mode == "" || valid_mode mode) ≡ true
    → validates (resolve_access event ref base_ref default_branch mode) ≡ true
unfolding resolve_access validates
resolve_access-validates event ref base_ref default_branch mode full valid =
    let refs = candidate_refs event ref base_ref default_branch in
    let all_full =
      all-unique_after is_full refs []
        (candidate_refs-full event ref base_ref default_branch full) in
    rw (chosen_valid event ref default_branch mode valid, full) (rw full at all_full)

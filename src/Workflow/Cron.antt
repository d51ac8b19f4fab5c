-- ===== src/Workflow/Cron.antt =====
-- ParseCron of internal/workflow/workflow.go. The cron package and the test of a space are parameters;
-- an instant is a number of seconds.
use Prim.Native.Char.{Char}
use open_actions.Base.{
  ℕ, zero, suc, ◌+◌, String, Bool, true, false, not, ◌||◌, ◌==◌, Option, none, some, List, [], ◌∷◌,
  length, ltb, eqb, if◌then◌else◌,
}
use open_actions.Base.Text.{runes}

pub record CronLibrary : Type 1 where
  pub Schedule : Type 0
  pub parse : String → Option Schedule
  pub next : Schedule → ℕ → ℕ
  pub is_space : Char → Bool
  pub start : ℕ  -- time.Date(2000, time.January, 1, 0, 0, 0, 0, time.UTC)

abbrev pub max_cron_length : ℕ
max_cron_length = 256

module _ (cron : CronLibrary) where
  -- len(strings.Fields(s)), with whether the character before is of a field.
  unfoldable pub count_fields : Bool → List Char → ℕ
  count_fields inside [] = 0
  count_fields inside (c ∷ s) =
      let closed = count_fields false s in
      let later = count_fields true s in
      if cron.is_space c then closed else if inside then later else suc later

  -- The loop that looks at 128 intervals.
  unfoldable pub spaced : ℕ → cron.Schedule → ℕ → Bool
  spaced zero parsed cursor = true
  spaced (suc n) parsed cursor =
      let next = cron.next parsed cursor in
      let following = cron.next parsed next in
      let later = spaced n parsed next in if ltb following (next + 300) then false else later

  -- ParseCron.
  unfoldable pub parse_cron : String → Option cron.Schedule
  unfolding count_fields spaced
  parse_cron expression =
      if expression == "" || ltb max_cron_length (length (runes expression))
      then none
      else if not (eqb (count_fields false (runes expression)) 5)
      then none
      else elim (cron.parse expression) [
        | none ↦ none
        | some parsed ↦ if spaced 128 parsed cron.start then some parsed else none
      ]

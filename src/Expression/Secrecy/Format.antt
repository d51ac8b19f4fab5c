-- ===== src/Expression/Secrecy/Format.antt =====
-- The function format keeps secrets.
use Prim.Native.String.{[], ◌∷◌}
use open_actions.Base.{
  ℕ, zero, suc, ◌+◌, leb, String, Bool, true, false, ◌≡◌, refl, sym, ap, ◌⊎◌, inl, inr, arith, ◌||◌,
  Option, none, some, if◌then◌else◌,
}
use open_actions.Base.Result.{Result, err}
use open_actions.Expression.Texts.{atoi, char_count}
use open_actions.Expression.Value.{text, Value, ArrayItems, sensitive, Runtime}
use open_actions.Expression.Access.{item_count}
use open_actions.Expression.Node.{EvalError, invalid_template, placeholder_overflow, not_scalar}
use open_actions.Expression.Hash.{found_or}
use open_actions.Expression.Calls.{argument_at, append_string, scalar_text}
use open_actions.Expression.Secrecy.{
  Same, scalars, Alike, Agree, IsHidden, Agree-IsHidden, Agree-bind, Agree-step, IsHidden-bind,
  string_value-Same,
}
use open_actions.Expression.Secrecy.Calls.{
  AlikeItems, none_alike, all_alike, argument_at-AlikeItems,
}
use open_actions.Expression.Format.{
  argument_after, placeholder, Piece, copied, filled, broken, piece_of, write_template, format_with,
  evaluate_format,
}

item_count-AlikeItems : {vs ws : ArrayItems} → AlikeItems vs ws → item_count vs ≡ item_count ws
unfolding item_count
item_count-AlikeItems none_alike = refl
item_count-AlikeItems (all_alike a h) = ap suc (item_count-AlikeItems h)

-- Two results that agree, behind a test that both sides share.
Agree-test {ℓ κ} :
    {A : Type ℓ} (R : A → A → Type κ) (b : Bool) (e : EvalError) (m n : Result EvalError A)
    → Agree R m n
    → Agree R (if b then err e else m) (if b then err e else n)
Agree-test R true e m n h = tt
Agree-test R false e m n h = h

argument_after-AlikeItems :
    {vs ws : ArrayItems} (position : Option ℕ)
    → AlikeItems vs ws
    → Agree Alike (argument_after vs position) (argument_after ws position)
unfolding argument_after
argument_after-AlikeItems none h = tt
argument_after-AlikeItems {vs} {ws} (some n) h = rw (sym (item_count-AlikeItems h)) (
    Agree-test Alike (leb 9223372036854775808 (n + 1)) placeholder_overflow _ _ (
      Agree-test Alike (leb (item_count vs) (n + 1)) invalid_template _ _
        (argument_at-AlikeItems (n + 1) h)))

placeholder-AlikeItems :
    {vs ws : ArrayItems} (inside : String)
    → AlikeItems vs ws
    → Agree Alike (placeholder vs inside) (placeholder ws inside)
unfolding placeholder
placeholder-AlikeItems inside h = argument_after-AlikeItems (atoi inside) h

pub Piece-cases :
    (x : Piece)
    → (x ≡ broken)
      ⊎ (((piece : String) × (skip : ℕ) × (x ≡ copied piece skip))
          ⊎ ((inside : String) × (x ≡ filled inside)))
Piece-cases broken = inl refl
Piece-cases (copied piece skip) = inr (inl (piece, skip, refl))
Piece-cases (filled inside) = inr (inr (inside, refl))

module _ (r : Runtime) where
  pub scalar_text-Same : {v w : Value} → Same false v w → scalar_text r v ≡ scalar_text r w
  unfolding scalar_text
  scalar_text-Same same = ap (found_or not_scalar) (string_value-Same r same)

  write_template-secret :
      (vs : ArrayItems) (skip : ℕ) (template result : String) (s : Bool)
      → s ≡ true
      → IsHidden (write_template r vs skip template result s)
  unfolding write_template
  write_template-secret vs skip [] result s h = h
  write_template-secret vs (suc skip) (c ∷ template) result s h =
      write_template-secret vs skip template result s h
  write_template-secret vs zero (c ∷ template) result s h =
      elim (Piece-cases (piece_of c template)) [
        | inl e ↦ rw (e, IsHidden) tt
        | inr (inl (piece, skip, e)) ↦
            rw (e, IsHidden)
              (IsHidden-bind _ (append_string result piece)
                λ more. write_template-secret vs skip template more s h)
        | inr (inr (inside, e)) ↦
            rw (e, IsHidden)
              (IsHidden-bind _ (placeholder vs inside) λ chosen.
                IsHidden-bind _ (scalar_text r chosen) λ replacement.
                  IsHidden-bind _ (append_string result replacement) λ more.
                    write_template-secret vs (suc (char_count inside)) template more
                      (s || sensitive chosen) (ground arith))
      ]

  write_template-Alike :
      {vs ws : ArrayItems} (skip : ℕ) (template result : String) (s t : Bool)
      → AlikeItems vs ws
      → Agree Alike
          (write_template r vs skip template result s)
          (write_template r ws skip template result t)
  unfolding write_template
  write_template-Alike skip [] result s t h = inr (scalars (text result) s t)
  write_template-Alike (suc skip) (c ∷ template) result s t h =
      write_template-Alike skip template result s t h
  write_template-Alike {vs} {ws} zero (c ∷ template) result s t h =
      elim (Piece-cases (piece_of c template)) [
        | inl e ↦ rw (e, Agree, write_template) tt
        | inr (inl (piece, skip, e)) ↦
            rw (e, Agree, write_template)
              (Agree-step Alike _ _ (append_string result piece)
                λ more. write_template-Alike skip template more s t h)
        | inr (inr (inside, e)) ↦
            rw (e, Agree, write_template)
              (Agree-bind Alike _ _ (placeholder vs inside) (placeholder ws inside)
                (placeholder-AlikeItems inside h)
                λ v w a. elim a [
                  | inl (p, q) ↦
                      Agree-IsHidden _ _
                        (IsHidden-bind _ (scalar_text r v) λ replacement.
                          IsHidden-bind _ (append_string result replacement) λ more.
                            write_template-secret vs (suc (char_count inside)) template more
                              (s || sensitive v) (ground arith))
                        (IsHidden-bind _ (scalar_text r w) λ replacement.
                          IsHidden-bind _ (append_string result replacement) λ more.
                            write_template-secret ws (suc (char_count inside)) template more
                              (t || sensitive w) (ground arith))
                  | inr same ↦ rw (scalar_text-Same same) (
                      Agree-step Alike _ _ (scalar_text r w) λ replacement.
                        Agree-step Alike _ _ (append_string result replacement) λ more.
                          write_template-Alike (suc (char_count inside)) template more
                            (s || sensitive v) (t || sensitive w) h)
                ])
      ]

  format_with-Alike :
      {v w : Value} {vs ws : ArrayItems}
      → Alike v w
      → AlikeItems vs ws
      → Agree Alike (format_with r vs v) (format_with r ws w)
  unfolding format_with
  format_with-Alike {v} {w} {vs} {ws} (inl (p, q)) h =
      Agree-IsHidden _ _
        (IsHidden-bind _ (scalar_text r v)
          λ template. write_template-secret vs 0 template "" (sensitive v) p)
        (IsHidden-bind _ (scalar_text r w)
          λ template. write_template-secret ws 0 template "" (sensitive w) q)
  format_with-Alike {v} {w} (inr same) h = rw (scalar_text-Same same) (
      Agree-step Alike _ _ (scalar_text r w)
        λ template. write_template-Alike 0 template "" (sensitive v) (sensitive w) h)

  pub evaluate_format-Alike :
      {vs ws : ArrayItems}
      → AlikeItems vs ws
      → Agree Alike (evaluate_format r vs) (evaluate_format r ws)
  unfolding evaluate_format
  evaluate_format-Alike {vs} {ws} h =
      Agree-bind Alike _ _ (argument_at vs 0) (argument_at ws 0) (argument_at-AlikeItems 0 h)
        λ v w a. format_with-Alike a h

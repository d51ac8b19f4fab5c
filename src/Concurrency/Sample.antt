-- ===== src/Concurrency/Sample.antt =====
-- A platform that keeps its promises, with a small encoding of members in place of JSON.
use Prim.Native.Char.{Char, code}
use Prim.Native.String.{String, [], ◌∷◌}
use open_actions.Api.Sample.{find_first}
use open_actions.Base.{
  ℕ, zero, suc, Bool, true, false, Option, none, some, ◌≡◌, refl, ◌==◌, arith, if◌then◌else◌, eqb,
}
use open_actions.Concurrency.Lease.{Platform, IsFaithful}
use open_actions.Concurrency.Member.{Member}
use text.Mathlib.TextLemmas.{cons-ne-nil}

-- Each character of `s` behind a mark, and the end of `s` before `rest`.
abbrev write : String → String → String
write [] rest = "." ∷ rest
write (c ∷ s) rest = "x" ∷ c ∷ write s rest

abbrev read : String → Option (String × String)
read [] = none
read (t ∷ []) = if eqb (code t) b'.' then some ([], []) else none
read (t ∷ c ∷ s) =
    let later = read s in
    if eqb (code t) b'.'
    then some ([], c ∷ s)
    else elim later [ none ↦ none | some (a, rest) ↦ some (c ∷ a, rest) ]

read-write : (s rest : String) → read (write s rest) ≡ some (s, rest)
read-write [] [] = refl
read-write [] (c ∷ rest) = refl
read-write (c ∷ s) rest = ground (arith, read-write s rest)

abbrev flag : Bool → Char
flag true = "t"
flag false = "f"

abbrev encode_member : Member → String
encode_member m = flag m.cancel_in_progress ∷ write m.kind (write m.name (write m.uid []))

abbrev decode_member : String → Option Member
decode_member [] = none
decode_member (c ∷ s) = elim (read s) [
  | none ↦ none
  | some (kind, s₁) ↦ elim (read s₁) [
    | none ↦ none
    | some (name, s₂) ↦ elim (read s₂) [
      | none ↦ none
      | some (uid, s₃) ↦
          some
            (record { kind = kind; name = name; uid = uid; cancel_in_progress = eqb (code c) b't' })
    ]
  ]
]

flag_lem : (b : Bool) → eqb (code (flag b)) b't' ≡ b
flag_lem true = refl
flag_lem false = refl

decode_member-encode_member : (m : Member) → decode_member (encode_member m) ≡ some m
decode_member-encode_member m = ground (
  arith,
  read-write m.kind (write m.name (write m.uid [])),
  read-write m.name (write m.uid []),
  read-write m.uid [],
  flag_lem m.cancel_in_progress,
)

abbrev tally : ℕ → String
tally zero = []
tally (suc n) = "i" ∷ tally n

abbrev pub sample : Platform
sample = record {
  find = find_first;
  equal_fold = λ a b. a == b;
  format_int = tally;
  encode = encode_member;
  decode = decode_member;
}

pub sample-IsFaithful : IsFaithful sample
sample-IsFaithful = record {
  decode-encode = decode_member-encode_member;
  encode-ne = λ m. cons-ne-nil _ _;
}

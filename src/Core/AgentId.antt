-- ===== src/Core/AgentId.antt =====
-- Agent IDs in pkg/core/server.go: `generateAgentID`, and the host name that `getAgentConnection`
-- reads off an ID.
pub mod RoundTrip
use Prim.Native.Char.{Char, code}
use Prim.Native.String.{String, [], ◌∷◌}
use mathlib.Core.List.{List, [], ◌∷◌, ◌++◌}
use text.Mathlib.TextLemmas.{nil-append, cons-append, append-nil}
use text.Mathlib.TextEquality.{Char-path}
use mandau.Base.{
  ℕ, zero, suc, ◌+◌, ◌-◌, ◌/◌, ◌%◌, ◌<◌, ◌≡◌, ◌≢◌, refl, sym, ap, ◌∙◌, inl, inr, Bool, true, false,
  not, ◌&&◌, arith, length, length-append, ltb, eqb, eqb_iff, if◌then◌else◌, ◌<>◌, Bool-cases,
}

-- `%d` of a number that is not negative.
abbrev pub digit_text : ℕ → String
digit_text zero = "0"
digit_text (suc zero) = "1"
digit_text (suc (suc zero)) = "2"
digit_text (suc (suc (suc zero))) = "3"
digit_text (suc (suc (suc (suc zero)))) = "4"
digit_text (suc (suc (suc (suc (suc zero))))) = "5"
digit_text (suc (suc (suc (suc (suc (suc zero)))))) = "6"
digit_text (suc (suc (suc (suc (suc (suc (suc zero))))))) = "7"
digit_text (suc (suc (suc (suc (suc (suc (suc (suc zero)))))))) = "8"
digit_text n = "9"

unfoldable pub decimal_within : ℕ → ℕ → String
decimal_within zero n = ""
decimal_within (suc f) n =
    let rest = decimal_within f (n / 10) <> digit_text (n % 10) in
    if ltb n 10 then digit_text n else rest

unfoldable pub decimal : ℕ → String
unfolding decimal_within
decimal n = decimal_within (suc n) n

-- fmt.Sprintf("agent-%s-%d", hostname, now)
unfoldable pub generate_agent_id : String → ℕ → String
generate_agent_id hostname now = "agent-" <> hostname <> "-" <> decimal now

abbrev pub is_dash : Char → Bool
is_dash c = eqb (code c) b'-'

abbrev pub cons_first : Char → List String → List String
cons_first c [] = (c ∷ []) ∷ []
cons_first c (p ∷ ps) = (c ∷ p) ∷ ps

-- strings.Split(s, "-")
unfoldable pub split_dash : String → List String
split_dash [] = [] ∷ []
split_dash (c ∷ s) = let rest = split_dash s in if is_dash c then [] ∷ rest else cons_first c rest

-- strings.Join(parts, "-")
unfoldable pub join_dash : List String → String
join_dash [] = []
join_dash (p ∷ []) = p
join_dash (p ∷ q ∷ ps) = p <> "-" <> join_dash (q ∷ ps)

abbrev pub drop_last : List String → List String
drop_last [] = []
drop_last (p ∷ []) = []
drop_last (p ∷ q ∷ ps) = p ∷ drop_last (q ∷ ps)

abbrev pub hostname_of_parts : List String → String
hostname_of_parts [] = ""
hostname_of_parts (p ∷ []) = ""
hostname_of_parts (p ∷ q ∷ []) = q
hostname_of_parts (p ∷ q ∷ r ∷ ps) = join_dash (drop_last (q ∷ r ∷ ps))

-- The host name of an ID: empty for one part, the second of two, and of more all between the first
-- and the last.
unfoldable pub hostname_of_id : String → String
hostname_of_id agent_id = hostname_of_parts (split_dash agent_id)

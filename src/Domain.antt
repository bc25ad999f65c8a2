-- ===== src/Domain.antt =====
-- src/habitat_state/domain.py: the validated value types, and the state machines of the entities.
use Prim.Native.Char.{code}
use nix_ai.Prelude.{
  Bool, ℕ, Option, String, Result, true, beq, all_text, if◌then◌else◌, leb, ◌||◌, false, some,
  is_lower_hex, is_canonical_digest, ◌&&◌, ok, text_len, is_empty_text, suc, none, err, value_error,
  zero,
}

pub data EntityKind : Type 0 where
  agent objective activation wake : EntityKind

pub data State : Type 0 where
  registered available suspended retired : State
  proposed active waiting satisfied failed cancelled : State
  requested leased preparing running waiting_context waiting_effect sleeping completed : State
  pending acknowledged released expired : State

-- `INITIAL`
unfoldable pub initial : EntityKind → State
initial agent = registered
initial objective = proposed
initial activation = requested
initial wake = pending

-- `LEGAL`, as a test: `new in LEGAL.get((kind, previous), set())`.
unfoldable pub legal_agent : State → State → Bool
legal_agent registered available = true
legal_agent available suspended = true
legal_agent available retired = true
legal_agent suspended available = true
legal_agent suspended retired = true
legal_agent _ _ = false

unfoldable pub legal_objective : State → State → Bool
legal_objective proposed active = true
legal_objective proposed cancelled = true
legal_objective active waiting = true
legal_objective active satisfied = true
legal_objective active failed = true
legal_objective active cancelled = true
legal_objective waiting active = true
legal_objective waiting failed = true
legal_objective waiting cancelled = true
legal_objective _ _ = false

unfoldable pub legal_activation : State → State → Bool
legal_activation requested leased = true
legal_activation requested cancelled = true
legal_activation leased preparing = true
legal_activation leased failed = true
legal_activation leased cancelled = true
legal_activation preparing running = true
legal_activation preparing failed = true
legal_activation preparing cancelled = true
legal_activation running waiting_context = true
legal_activation running waiting_effect = true
legal_activation running sleeping = true
legal_activation running completed = true
legal_activation running failed = true
legal_activation running cancelled = true
legal_activation _ _ = false

unfoldable pub legal_wake : State → State → Bool
legal_wake pending leased = true
legal_wake leased acknowledged = true
legal_wake leased released = true
legal_wake leased expired = true
legal_wake _ _ = false

unfoldable pub legal : EntityKind → State → State → Bool
unfolding legal_agent legal_objective legal_activation legal_wake
legal agent = legal_agent
legal objective = legal_objective
legal activation = legal_activation
legal wake = legal_wake

abbrev pub kind_tag : EntityKind → ℕ
kind_tag agent = 0
kind_tag objective = 1
kind_tag activation = 2
kind_tag wake = 3

abbrev pub state_tag : State → ℕ
state_tag registered = 0
state_tag available = 1
state_tag suspended = 2
state_tag retired = 3
state_tag proposed = 4
state_tag active = 5
state_tag waiting = 6
state_tag satisfied = 7
state_tag failed = 8
state_tag cancelled = 9
state_tag requested = 10
state_tag leased = 11
state_tag preparing = 12
state_tag running = 13
state_tag waiting_context = 14
state_tag waiting_effect = 15
state_tag sleeping = 16
state_tag completed = 17
state_tag pending = 18
state_tag acknowledged = 19
state_tag released = 20
state_tag expired = 21

-- `==` of two members of an enumeration
abbrev pub kind_eq : EntityKind → EntityKind → Bool
kind_eq a b = beq (kind_tag a) (kind_tag b)

abbrev pub state_eq : State → State → Bool
state_eq a b = beq (state_tag a) (state_tag b)

-- `assert_legal`, as a test; the caller raises.
unfoldable pub is_legal : EntityKind → Option State → State → Bool
unfolding initial legal
is_legal kind none new = state_eq (initial kind) new
is_legal kind (some previous) new = legal kind previous new

abbrev pub hex_digits : String → Bool
hex_digits s = all_text is_lower_hex s

-- `EvidenceId.__post_init__`: sha256:[0-9a-f]{64}
unfoldable pub evidence_id : String → Result String
evidence_id s =
    if is_canonical_digest s then ok s else err (value_error "invalid evidence content identity")

abbrev is_lower : ℕ → Bool
is_lower c = leb b'a' c && leb c b'z'

abbrev is_digit : ℕ → Bool
is_digit c = leb b'0' c && leb c b'9'

abbrev is_alnum : ℕ → Bool
is_alnum c = is_lower c || leb b'A' c && leb c b'Z' || is_digit c

abbrev is_scheme_char : ℕ → Bool
is_scheme_char c = is_lower c || is_digit c || beq c b'_' || beq c b'-'

abbrev is_name_char : ℕ → Bool
is_name_char c = is_alnum c || beq c b'.' || beq c b'_' || beq c b'-'

-- [A-Za-z0-9._-]{0,room}, up to the end of the text
name_rest : ℕ → String → Bool
name_rest room String.[] = true
name_rest zero (String.◌∷◌ c s) = false
name_rest (suc room) (String.◌∷◌ c s) = is_name_char (code c) && name_rest room s

-- [A-Za-z0-9][A-Za-z0-9._-]{0,127}
name_part : String → Bool
unfolding name_rest
name_part String.[] = false
name_part (String.◌∷◌ c s) = is_alnum (code c) && name_rest 127 s

-- [a-z0-9_-]{0,room}: and the name behind the colon; the scheme holds no colon
scheme_rest : ℕ → String → Bool
unfolding name_part
scheme_rest room String.[] = false
scheme_rest zero (String.◌∷◌ c s) = beq (code c) b':' && name_part s
scheme_rest (suc room) (String.◌∷◌ c s) =
    let more = is_scheme_char (code c) && scheme_rest room s in
    if beq (code c) b':' then name_part s else more

-- `IDENTITY.fullmatch`
unfoldable pub is_identity : String → Bool
unfolding scheme_rest
is_identity String.[] = false
is_identity (String.◌∷◌ c s) = is_lower (code c) && scheme_rest 62 s

-- `PrincipalId.__post_init__`
unfoldable pub principal_id : String → Result String
unfolding is_identity
principal_id s =
    if is_identity s
    then ok s
    else err (value_error "principal must be a typed, validated identity")

pub record EntityId : Type 0 where
  pub kind : EntityKind
  pub value : String

pub record Correlation : Type 0 where
  pub trace_id : String
  pub agent_id : String
  pub objective_id : String
  pub generation_id : String

-- `Correlation.__post_init__`: [0-9a-f]{32}
unfoldable pub correlation : Correlation → Result Correlation
correlation c =
    if beq (text_len c.generation_id) 32 && hex_digits c.generation_id
    then ok c
    else err (value_error "generation_id must be 32 lowercase hexadecimal characters")

pub record EvidenceMetadata : Type 0 where
  pub producer : String
  pub subject : String
  pub source_version : ℕ
  pub retention_class : String
  pub access_policy : String
  pub correlation : Correlation

-- `EvidenceMetadata.__post_init__`
unfoldable pub evidence_metadata : EvidenceMetadata → Result EvidenceMetadata
evidence_metadata m =
    if is_empty_text m.subject || is_empty_text m.retention_class || is_empty_text m.access_policy
    then err (value_error "evidence subject, retention class, and access policy are required")
    else ok m

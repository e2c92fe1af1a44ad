-- ===== src/Receive/OptionalGetters.antt =====
-- The getters of `RTDEReceiveInterface` whose variables only some controllers are asked for.
use ur_rtde_fork_custom.Base.{
  ℕ, zero, suc, ◌+◌, ◌≡◌, refl, Bool, true, false, List, [], ◌∷◌, codes, some,
}
use ur_rtde_fork_custom.Base.Outcome.{Outcome, throws, range_error}
use ur_rtde_fork_custom.Rtde.Registers.{out_int_reg, out_double_reg}
use ur_rtde_fork_custom.Rtde.StateTypes.{Variant, double, int32, vector_double, find, state_types}
use ur_rtde_fork_custom.Rtde.RobotState.{RobotState}
use ur_rtde_fork_custom.Rtde.RobotState.Kind.{kind}
use ur_rtde_fork_custom.Receive.{
  Version, base_variables, setup_variables, append_names, register_variables, reports_wrench,
  reports_payload, reports_inertia, reports_registers,
}
use ur_rtde_fork_custom.Receive.Ready.{
  Reached, Returns, contains, contains_kept, contains_added, get_or_throw-Returns,
}
use ur_rtde_fork_custom.Receive.Getters.{
  get_or_throw, get_payload, get_payload_cog, get_payload_inertia,
}

-- The lists that `setup_variables` builds one behind the other.
abbrev with_wrench : Version → List (List ℕ)
with_wrench version =
    append_names (reports_wrench version) (codes "ft_raw_wrench" ∷ []) base_variables

abbrev with_payload : Version → List (List ℕ)
with_payload version =
    append_names (reports_payload version) (codes "payload" ∷ codes "payload_cog" ∷ [])
      (with_wrench version)

abbrev with_inertia : Version → List (List ℕ)
with_inertia version =
    append_names (reports_inertia version) (codes "payload_inertia" ∷ []) (with_payload version)

payload_ready :
    (upper : Bool) (version : Version) {buffer : List ℕ} {s : RobotState}
    → reports_payload version ≡ true
    → Reached (setup_variables upper version []) buffer s
    → Returns (get_payload s) × Returns (get_payload_cog s)
unfolding get_payload get_payload_cog find state_types contains setup_variables
payload_ready upper version {s = s} h r = (
  ready (codes "payload") (double 0) refl refl,
  ready (codes "payload_cog") (vector_double []) refl refl,
)
  where
    ready :
        (name : List ℕ) (entry : Variant)
        → find name state_types ≡ some entry
        → contains name (codes "payload" ∷ codes "payload_cog" ∷ []) ≡ true
        → Returns (get_or_throw (kind entry) name s)
    ready name entry known c =
        get_or_throw-Returns name entry known
          (contains_kept (reports_registers upper version) name _ (with_inertia version) (
            contains_kept (reports_inertia version) name (codes "payload_inertia" ∷ [])
              (with_payload version)
              (contains_added (reports_payload version) name
                (codes "payload" ∷ codes "payload_cog" ∷ []) (with_wrench version) h c)))
          r

inertia_ready :
    (upper : Bool) (version : Version) {buffer : List ℕ} {s : RobotState}
    → reports_inertia version ≡ true
    → Reached (setup_variables upper version []) buffer s
    → Returns (get_payload_inertia s)
unfolding get_payload_inertia find state_types contains setup_variables
inertia_ready upper version {s = s} h r =
    get_or_throw-Returns name (vector_double []) refl
      (contains_kept (reports_registers upper version) name _ (with_inertia version)
        (contains_added (reports_inertia version) name (name ∷ []) (with_payload version) h refl))
      r
  where
    name : List ℕ
    name = codes "payload_inertia"

-- A property of `count` numbers from `low` on holds of each number between.
abbrev AllFrom : (ℕ → Type 0) → ℕ → ℕ → Type 0
AllFrom P low zero = Unit {0}
AllFrom P low (suc count) = P low × AllFrom P (low + 1) count

-- The register of a number is in the table, and it is asked for.
abbrev IsListed : ℕ → ℕ → Type 0
IsListed register_offset n =
    (find (out_int_reg 0 n) state_types ≡ some (int32 0))
    × (find (out_double_reg 0 n) state_types ≡ some (double 0))
    × (contains (out_int_reg 0 n) (register_variables register_offset) ≡ true)
    × (contains (out_double_reg 0 n) (register_variables register_offset) ≡ true)

-- A number of a register is read or refused.
abbrev pub IsAnswered : Bool → Outcome ℕ → Type 0
IsAnswered true m = Returns m
IsAnswered false m = m ≡ throws range_error

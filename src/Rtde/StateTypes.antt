-- ===== src/Rtde/StateTypes.antt =====
-- `rtde_type_variant_` of include/ur_rtde/robot_state.h and the table `state_types_` of
-- src/robot_state.cpp.
use ur_rtde_fork_custom.Base.{ℕ, List, [], ◌∷◌, Option, none, some, codes, same_text, if◌then◌else◌}

-- Words and doubles are bit patterns.
pub data Variant : Type 0 where
  uint32 uint64 int32 double : ℕ → Variant
  vector_double vector_int32 : List ℕ → Variant

-- An `std::unordered_map` by name.
abbrev pub Table : Type 0
Table = List (List ℕ × Variant)

unfoldable pub find : List ℕ → Table → Option Variant
unfolding same_text
find name [] = none
find name ((key, v) ∷ table) = if same_text name key then some v else find name table

unfoldable pub state_types : Table
state_types =
    (codes "timestamp", double 0)
    ∷ (codes "target_q", vector_double [])
    ∷ (codes "target_qd", vector_double [])
    ∷ (codes "target_qdd", vector_double [])
    ∷ (codes "target_current", vector_double [])
    ∷ (codes "target_moment", vector_double [])
    ∷ (codes "actual_q", vector_double [])
    ∷ (codes "actual_qd", vector_double [])
    ∷ (codes "actual_qdd", vector_double [])
    ∷ (codes "actual_current", vector_double [])
    ∷ (codes "actual_moment", vector_double [])
    ∷ (codes "joint_control_output", vector_double [])
    ∷ (codes "actual_TCP_pose", vector_double [])
    ∷ (codes "actual_TCP_speed", vector_double [])
    ∷ (codes "actual_TCP_force", vector_double [])
    ∷ (codes "target_TCP_pose", vector_double [])
    ∷ (codes "target_TCP_speed", vector_double [])
    ∷ (codes "actual_digital_input_bits", uint64 0)
    ∷ (codes "joint_temperatures", vector_double [])
    ∷ (codes "actual_execution_time", double 0)
    ∷ (codes "robot_mode", int32 0)
    ∷ (codes "joint_mode", vector_int32 [])
    ∷ (codes "safety_mode", int32 0)
    ∷ (codes "actual_tool_accelerometer", vector_double [])
    ∷ (codes "speed_scaling", double 0)
    ∷ (codes "target_speed_fraction", double 0)
    ∷ (codes "actual_momentum", double 0)
    ∷ (codes "actual_main_voltage", double 0)
    ∷ (codes "actual_robot_voltage", double 0)
    ∷ (codes "actual_robot_current", double 0)
    ∷ (codes "actual_joint_voltage", vector_double [])
    ∷ (codes "actual_digital_output_bits", uint64 0)
    ∷ (codes "runtime_state", uint32 0)
    ∷ (codes "robot_status_bits", uint32 0)
    ∷ (codes "safety_status_bits", uint32 0)
    ∷ (codes "standard_analog_input0", double 0)
    ∷ (codes "standard_analog_input1", double 0)
    ∷ (codes "standard_analog_output0", double 0)
    ∷ (codes "standard_analog_output1", double 0)
    ∷ (codes "ft_raw_wrench", vector_double [])
    ∷ (codes "payload", double 0)
    ∷ (codes "payload_cog", vector_double [])
    ∷ (codes "payload_inertia", vector_double [])
    ∷ (codes "output_bit_registers0_to_31", uint32 0)
    ∷ (codes "output_bit_registers32_to_63", uint32 0)
    ∷ (codes "output_int_register_0", int32 0)
    ∷ (codes "output_int_register_1", int32 0)
    ∷ (codes "output_int_register_2", int32 0)
    ∷ (codes "output_int_register_3", int32 0)
    ∷ (codes "output_int_register_4", int32 0)
    ∷ (codes "output_int_register_5", int32 0)
    ∷ (codes "output_int_register_6", int32 0)
    ∷ (codes "output_int_register_7", int32 0)
    ∷ (codes "output_int_register_8", int32 0)
    ∷ (codes "output_int_register_9", int32 0)
    ∷ (codes "output_int_register_10", int32 0)
    ∷ (codes "output_int_register_11", int32 0)
    ∷ (codes "output_int_register_12", int32 0)
    ∷ (codes "output_int_register_13", int32 0)
    ∷ (codes "output_int_register_14", int32 0)
    ∷ (codes "output_int_register_15", int32 0)
    ∷ (codes "output_int_register_16", int32 0)
    ∷ (codes "output_int_register_17", int32 0)
    ∷ (codes "output_int_register_18", int32 0)
    ∷ (codes "output_int_register_19", int32 0)
    ∷ (codes "output_int_register_20", int32 0)
    ∷ (codes "output_int_register_21", int32 0)
    ∷ (codes "output_int_register_22", int32 0)
    ∷ (codes "output_int_register_23", int32 0)
    ∷ (codes "output_int_register_24", int32 0)
    ∷ (codes "output_int_register_25", int32 0)
    ∷ (codes "output_int_register_26", int32 0)
    ∷ (codes "output_int_register_27", int32 0)
    ∷ (codes "output_int_register_28", int32 0)
    ∷ (codes "output_int_register_29", int32 0)
    ∷ (codes "output_int_register_30", int32 0)
    ∷ (codes "output_int_register_31", int32 0)
    ∷ (codes "output_int_register_32", int32 0)
    ∷ (codes "output_int_register_33", int32 0)
    ∷ (codes "output_int_register_34", int32 0)
    ∷ (codes "output_int_register_35", int32 0)
    ∷ (codes "output_int_register_36", int32 0)
    ∷ (codes "output_int_register_37", int32 0)
    ∷ (codes "output_int_register_38", int32 0)
    ∷ (codes "output_int_register_39", int32 0)
    ∷ (codes "output_int_register_40", int32 0)
    ∷ (codes "output_int_register_41", int32 0)
    ∷ (codes "output_int_register_42", int32 0)
    ∷ (codes "output_int_register_43", int32 0)
    ∷ (codes "output_int_register_44", int32 0)
    ∷ (codes "output_int_register_45", int32 0)
    ∷ (codes "output_int_register_46", int32 0)
    ∷ (codes "output_int_register_47", int32 0)
    ∷ (codes "output_double_register_0", double 0)
    ∷ (codes "output_double_register_1", double 0)
    ∷ (codes "output_double_register_2", double 0)
    ∷ (codes "output_double_register_3", double 0)
    ∷ (codes "output_double_register_4", double 0)
    ∷ (codes "output_double_register_5", double 0)
    ∷ (codes "output_double_register_6", double 0)
    ∷ (codes "output_double_register_7", double 0)
    ∷ (codes "output_double_register_8", double 0)
    ∷ (codes "output_double_register_9", double 0)
    ∷ (codes "output_double_register_10", double 0)
    ∷ (codes "output_double_register_11", double 0)
    ∷ (codes "output_double_register_12", double 0)
    ∷ (codes "output_double_register_13", double 0)
    ∷ (codes "output_double_register_14", double 0)
    ∷ (codes "output_double_register_15", double 0)
    ∷ (codes "output_double_register_16", double 0)
    ∷ (codes "output_double_register_17", double 0)
    ∷ (codes "output_double_register_18", double 0)
    ∷ (codes "output_double_register_19", double 0)
    ∷ (codes "output_double_register_20", double 0)
    ∷ (codes "output_double_register_21", double 0)
    ∷ (codes "output_double_register_22", double 0)
    ∷ (codes "output_double_register_23", double 0)
    ∷ (codes "output_double_register_24", double 0)
    ∷ (codes "output_double_register_25", double 0)
    ∷ (codes "output_double_register_26", double 0)
    ∷ (codes "output_double_register_27", double 0)
    ∷ (codes "output_double_register_28", double 0)
    ∷ (codes "output_double_register_29", double 0)
    ∷ (codes "output_double_register_30", double 0)
    ∷ (codes "output_double_register_31", double 0)
    ∷ (codes "output_double_register_32", double 0)
    ∷ (codes "output_double_register_33", double 0)
    ∷ (codes "output_double_register_34", double 0)
    ∷ (codes "output_double_register_35", double 0)
    ∷ (codes "output_double_register_36", double 0)
    ∷ (codes "output_double_register_37", double 0)
    ∷ (codes "output_double_register_38", double 0)
    ∷ (codes "output_double_register_39", double 0)
    ∷ (codes "output_double_register_40", double 0)
    ∷ (codes "output_double_register_41", double 0)
    ∷ (codes "output_double_register_42", double 0)
    ∷ (codes "output_double_register_43", double 0)
    ∷ (codes "output_double_register_44", double 0)
    ∷ (codes "output_double_register_45", double 0)
    ∷ (codes "output_double_register_46", double 0)
    ∷ (codes "output_double_register_47", double 0)
    ∷ []

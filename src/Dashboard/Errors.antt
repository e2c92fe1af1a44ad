-- ===== src/Dashboard/Errors.antt =====
-- The methods of `DashboardClient` of src/dashboard_client.cpp together: without a socket, and in step
-- with the server.
use ur_rtde_fork_custom.Base.{ℕ, ◌≡◌, refl, Bool, false, List}
use ur_rtde_fork_custom.Base.Outcome.{throws, runtime_error}
use ur_rtde_fork_custom.Base.Action.{Action, return, ◌>>=◌}
use ur_rtde_fork_custom.Dashboard.Roles.{UserRole}
use ur_rtde_fork_custom.Dashboard

-- The methods with their arguments.
pub data Call : Type 0 where
  play_call stop_call pause_call quit_call shutdown_call close_popup_call power_on_call
        power_off_call brake_release_call close_safety_popup_call restart_safety_call running_call
        is_program_saved_call unlock_protective_stop_call program_state_call robotmode_call
        get_robot_model_call get_loaded_program_call safetymode_call safetystatus_call
        polyscope_version_call is_in_remote_control_call get_serial_number_call :
      Call
  load_urp_call popup_call add_to_log_call : List ℕ → Call
  set_user_role_call : UserRole → Call

-- What a method returns.
pub data Reply : Type 0 where
  nothing : Reply
  truth : Bool → Reply
  text : List ℕ → Reply

module _ {W : Type 0} (net : Dashboard.LineNetwork W) where
  abbrev pub perform : Call → Action (Dashboard.DashboardClient W) Reply
  perform play_call = Dashboard.play net >>= (λ _. return nothing)
  perform stop_call = Dashboard.stop net >>= (λ _. return nothing)
  perform pause_call = Dashboard.pause net >>= (λ _. return nothing)
  perform quit_call = Dashboard.quit net >>= (λ _. return nothing)
  perform shutdown_call = Dashboard.shutdown net >>= (λ _. return nothing)
  perform close_popup_call = Dashboard.close_popup net >>= (λ _. return nothing)
  perform power_on_call = Dashboard.power_on net >>= (λ _. return nothing)
  perform power_off_call = Dashboard.power_off net >>= (λ _. return nothing)
  perform brake_release_call = Dashboard.brake_release net >>= (λ _. return nothing)
  perform close_safety_popup_call = Dashboard.close_safety_popup net >>= (λ _. return nothing)
  perform restart_safety_call = Dashboard.restart_safety net >>= (λ _. return nothing)
  perform running_call = Dashboard.running net >>= (λ b. return (truth b))
  perform is_program_saved_call = Dashboard.is_program_saved net >>= (λ b. return (truth b))
  perform unlock_protective_stop_call =
      Dashboard.unlock_protective_stop net >>= (λ b. return (truth b))
  perform program_state_call = Dashboard.program_state net >>= (λ str. return (text str))
  perform robotmode_call = Dashboard.robotmode net >>= (λ str. return (text str))
  perform get_robot_model_call = Dashboard.get_robot_model net >>= (λ str. return (text str))
  perform get_loaded_program_call = Dashboard.get_loaded_program net >>= (λ str. return (text str))
  perform safetymode_call = Dashboard.safetymode net >>= (λ str. return (text str))
  perform safetystatus_call = Dashboard.safetystatus net >>= (λ str. return (text str))
  perform polyscope_version_call = Dashboard.polyscope_version net >>= (λ str. return (text str))
  perform is_in_remote_control_call = Dashboard.is_in_remote_control net >>= (λ b. return (truth b))
  perform get_serial_number_call = Dashboard.get_serial_number net >>= (λ str. return (text str))
  perform (load_urp_call urp_name) = Dashboard.load_urp net urp_name >>= (λ _. return nothing)
  perform (popup_call message) = Dashboard.popup net message >>= (λ _. return nothing)
  perform (add_to_log_call message) = Dashboard.add_to_log net message >>= (λ _. return nothing)
  perform (set_user_role_call role) = Dashboard.set_user_role net role >>= (λ _. return nothing)

  -- Without a socket, as before `connect` and behind `disconnect`, every method throws
  -- `std::runtime_error`, writes nothing and leaves the client as it is.
  perform-no_socket :
      (call : Call) (s : Dashboard.DashboardClient W)
      → s.has_socket ≡ false
      → perform call s ≡ (throws runtime_error, s)
  unfolding Dashboard.play Dashboard.stop Dashboard.pause Dashboard.quit Dashboard.shutdown
      Dashboard.close_popup Dashboard.power_on Dashboard.power_off Dashboard.brake_release
      Dashboard.close_safety_popup Dashboard.restart_safety Dashboard.running
      Dashboard.is_program_saved Dashboard.unlock_protective_stop Dashboard.program_state
      Dashboard.robotmode Dashboard.get_robot_model Dashboard.get_loaded_program
      Dashboard.safetymode Dashboard.safetystatus Dashboard.polyscope_version
      Dashboard.is_in_remote_control Dashboard.get_serial_number Dashboard.load_urp Dashboard.popup
      Dashboard.add_to_log Dashboard.set_user_role Dashboard.ask Dashboard.tell Dashboard.demand
      Dashboard.send Dashboard.receive
  perform-no_socket play_call s e = rw e refl
  perform-no_socket stop_call s e = rw e refl
  perform-no_socket pause_call s e = rw e refl
  perform-no_socket quit_call s e = rw e refl
  perform-no_socket shutdown_call s e = rw e refl
  perform-no_socket close_popup_call s e = rw e refl
  perform-no_socket power_on_call s e = rw e refl
  perform-no_socket power_off_call s e = rw e refl
  perform-no_socket brake_release_call s e = rw e refl
  perform-no_socket close_safety_popup_call s e = rw e refl
  perform-no_socket restart_safety_call s e = rw e refl
  perform-no_socket running_call s e = rw e refl
  perform-no_socket is_program_saved_call s e = rw e refl
  perform-no_socket unlock_protective_stop_call s e = rw e refl
  perform-no_socket program_state_call s e = rw e refl
  perform-no_socket robotmode_call s e = rw e refl
  perform-no_socket get_robot_model_call s e = rw e refl
  perform-no_socket get_loaded_program_call s e = rw e refl
  perform-no_socket safetymode_call s e = rw e refl
  perform-no_socket safetystatus_call s e = rw e refl
  perform-no_socket polyscope_version_call s e = rw e refl
  perform-no_socket is_in_remote_control_call s e = rw e refl
  perform-no_socket get_serial_number_call s e = rw e refl
  perform-no_socket (load_urp_call urp_name) s e = rw e refl
  perform-no_socket (popup_call message) s e = rw e refl
  perform-no_socket (add_to_log_call message) s e = rw e refl
  perform-no_socket (set_user_role_call role) s e = rw e refl

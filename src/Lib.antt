-- ===== src/Lib.antt =====
-- Verification library of ur_rtde, a C++ client of the Real-Time Data Exchange (RTDE) interface of
-- Universal Robots controllers.
--
-- The program. `RTDE` (src/rtde.cpp) speaks the protocol: it frames commands, sets up recipes of
-- variables and reads the data packages of the controller into a `RobotState` (src/robot_state.cpp).
-- `RTDEIOInterface` (src/rtde_io_interface.cpp), `RTDEControlInterface`
-- (src/rtde_control_interface.cpp) and `RTDEReceiveInterface` (src/rtde_receive_interface.cpp) are its
-- clients. Each command of the first two fills a `RTDE::RobotCommand`, and `RTDE::send` packs it for the
-- input recipe that the command names; the controller knows the package only by the recipes that
-- `setupRecipes` registered before. The third asks for variables, and its getters read the `RobotState`.
-- `ScriptClient` (src/script_client.cpp) sends the control script that answers the commands; the control
-- interface injects the code of paths into it and replaces it by scripts of the user.
-- `DashboardClient` (src/dashboard_client.cpp) talks to another server of the controller, and
-- `RobotiqGripper` (src/robotiq_gripper.cpp) to a gripper, both in lines of text.
--
-- The files.
--   Base.antt and below: tests, lists, texts as lists of byte values, the outcomes of a call with what
--     holds of them (Post), methods that change the members of an object (Action), and the order of IEEE
--     doubles on their bit patterns.
--   Utility.antt: the packers and readers of include/ur_rtde/rtde_utility.h, under the names of the
--     C++ functions in snake case. A byte, a word and a double are numbers below 2^8, 2^32 and 2^64; a
--     `char` stands for its value modulo 256. Reading outside a vector is the outcome `fault`.
--     Utility/Text.antt: `double2hexstr`, `hexToBytes`, `split`, `isNumber`. Utility/Text/Find.antt:
--     `std::string::find` and `strstr`. Utility/Text/Edit.antt: positions, `substr`, `erase` and
--     `insert`. Utility/Text/Stoi.antt: `std::stoi`.
--   Rtde.antt and below: Command (`RobotCommand`, the command numbers, `RTDECommand`), Send
--     (`RTDE::send` and the frame of `sendAll`), StateTypes and RobotState (the table of variables and
--     the state), Stream (`RTDE::receiveData`), Registers (`inIntReg` and its kin), Session
--     (`connect`, `disconnect`, the requests and `receive`), and Layout, the controller's reading of a
--     package by a recipe.
--   Io.antt: the recipes and operations of `RTDEIOInterface`. Io/Packages.antt and Io/RegisterOps.antt
--     state what the controller receives from them.
--   Control.antt and below: Limits (`verifyValueIsWithin` and the limits of
--     include/ur_rtde/rtde_control_interface.h), Recipes (`setupRecipes`), Port (what the commands use
--     of the rest of the object), Motion, Settings and Queries (the command functions), Packages (what
--     the controller receives), Refusals (arguments outside their limits), SendCommand (the `try` block of
--     `sendCommand`, the handshake with the control script), Path (`PathEntry`, `Path` and
--     `buildPathScriptCode`), Readings (the registers that the interface reads and
--     `AsyncOperationStatus`), Upload (moves along a path, `reuploadScript`, `setCustomScriptFile`,
--     `waitForProgramRunning`) and CustomScript (`sendCustomScript` and its kin).
--   Script.antt and below: `ScriptClient` of src/script_client.cpp. Removal is
--     `removeUnsupportedFunctions`, with the tags and lines of scripts/rtde_control.script in
--     Removal/Tags.antt and Removal/Lines.antt; Injection is `setScriptInjection` and
--     `scanAndInjectAdditionalScriptCode`; Client has the connection and the sending.
--   Receive.antt and below: the variables of `setupRecipes` of `RTDEReceiveInterface`, its getters
--     (Getters) and when they return (Ready, AllGetters, OptionalGetters).
--   Dashboard.antt and below: `DashboardClient`, the enumerations of
--     include/ur_rtde/dashboard_enums.h (Enums), the roles and the version.
--   Gripper.antt and below: `RobotiqGripper` of src/robotiq_gripper.cpp, its lines of text (Text), its
--     units (Units) and the calls that take them (Commands), its longer sequences (Activation), and what
--     holds of them (Noted, Asking, Bounds, Endpoints, Moves,
--     Calibration).
--   Examples.antt and below: the theorems at concrete arguments.
--
-- The model. A call ends in an `Outcome`: a value, one of the exceptions, or `fault` for undefined
-- behaviour. An operation takes `sendCommand` as a parameter and passes a state on; the theorems about
-- what is received instantiate it with one that notes the payload. A command object starts from
-- arbitrary memory, since its constructor leaves most members indeterminate. `receiveData` takes the
-- bytes that have arrived as an argument, of which one read takes 4096 at most, and its loop runs on fuel:
-- one more than the bytes in the buffer, which is enough since each round takes a header at least.
-- The `try` block of `sendCommand` sees the robot state of each step as a function of the step's number,
-- so anything may happen between two reads; without a connection a write is dropped, as in `sendAll`. Its
-- loops run on fuel, and as many rounds are enough as steps in which 301 seconds pass.
--
-- The sockets of Boost.Asio are a record of operations, `Network` for the class `RTDE`, `LineNetwork`
-- for the dashboard and `Wire` for the gripper, over a state of which nothing is assumed: an operation
-- may succeed or fail each time. A method gives the members also behind an exception. The gripper's
-- waits run on fuel that is passed in, and give nothing where it runs out. So do the waits of the
-- uploads of scripts, of which `waitForProgramRunning` ends within 501 rounds.
-- `removeUnsupportedFunctions` runs on a round for each tag and one more, which is enough if every tag
-- has the end of a line behind it. The script client knows its socket, the files, the generated script
-- and `snprintf` through the record `ScriptWorld`, and the uploads know the `try` block of
-- `sendCommand`, `reconnect`, which may change every member, the dashboard and the clock through the
-- record `Controller`. `float` with its arithmetic is the record `FloatOps`. A double in the code of a
-- path is printed by a function that is passed in.
--
-- Assumptions. The controller is not part of the repository. `Rtde.Layout.Controller` records the types
-- of its input variables as the RTDE guide lists them, `Rtde.Layout.Concrete` has one that meets the
-- record, and packages are numbers in network byte order without padding.
--
-- Not modelled: the inside of Boost.Asio, threads and locks (an update and a read of the state are each
-- one step), the constructors, `reconnect` and `receiveCallback` of the interfaces, the file recording and
-- `getSpeedScalingCombined` of `RTDEReceiveInterface`, `check_deadline` of the gripper and the conversion
-- of the speed in its `autoCalibrate`, the texts of exceptions and console messages, the Python bindings,
-- and the copy of the Universal Robots Client Library under src/urcl.
pub mod Base
pub mod Utility
pub mod Rtde
pub mod Dashboard
pub mod Gripper
pub mod Io
pub mod Control
pub mod Receive
pub mod Examples
pub mod Script

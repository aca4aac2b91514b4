-- ===== src/Lib.antt =====
-- TUFAN-AKS, the control unit of an electric vehicle (ESP32, C++, under ESP_AKS): a model of the
-- logic in ESP_AKS/lib, ESP_AKS/src and ESP_AKS/tools/can_replay, translated from the source, with
-- theorems about it.
--
-- The program. The CAN task reads frames of the battery management system, the motor driver and the
-- charger (CanManager, with the parsers of CanParse) into one snapshot, TelemetryData. The state
-- machine VcuLogic gets a copy of it every 20 ms, decides with the predicates of VcuLogic.h, and
-- drives ten contactors through the interface IRelayActuator, which RelayManager fills over SPI.
-- Faults found on the bus and the buttons reach it as events through a queue and two atomic flags.
-- The radio task samples snapshots into OfflineBuffer while the link is down, replays them when it
-- is up (UplinkScheduler), and passes each packet through TelemetrySanitize to Telemetry, which
-- writes it to the UART. LoraLink sets the radio up with the commands of E22Config. The display task
-- shows the snapshot, what BmsAlgo computes of the pack and the state, and posts the commands of the
-- touch buttons as events. The tasks are in src/main.cpp.
--
-- The files, and what each models:
--   Base, Base/*     shared names; Boolean tests, lists, integers and machine words over the native
--                    numbers
--   Config, Data     constants of include/SystemConfig.h and the headers; the records of
--                    lib/VehicleData/VehicleData.h and lib/CanParse/CanParse.h
--   Safety           the predicates of lib/VcuLogic/VcuLogic.h; Bands: how they nest and what they
--                    mean; Units: the unit of the cell extremes
--   Actuator, Queue  the interface lib/VcuLogic/IRelayActuator.h, and the FreeRTOS queue, with their laws
--   Vcu              lib/VcuLogic/VcuLogic.cpp: `run` is one tick, `post_event` is postEvent, and so
--                    on by name. Stages: the parts of a tick; Edges: its outcomes; Stop: stop and fault;
--                    Recover: RESET; Contactors: the invariant over all runs
--   Relay            lib/RelayManager/RelayManager.cpp; Verify: the read-back; Adapter: the adapter of
--                    src/main.cpp, which fills the interface
--   Parse            lib/CanParse/CanParse.cpp; Fields and Timeout: its values and its timeouts
--   Can              lib/CanManager: the state, BmsFreshness.h and MotorFaultDebounce.h; Handle, Update,
--                    Receive and Begin: the operations of CanManager.cpp; Debounce, Freshness, Cells,
--                    Assembly, Fits, Typed and Begin/Driver: theorems, with Keep for what
--                    holds of every frame
--   Bms              lib/BmsAlgo/BmsAlgo.cpp on the pack of lib/BmsModel; Extremes, Balance and Charge:
--                    theorems
--   Buffer           lib/OfflineBuffer; Refine: the ring as a queue
--   Uplink           lib/LoraLink/UplinkScheduler.cpp with LinkMonitor.h and LoraRxHandler.h; Link
--                    and Replay: theorems
--   Sanitize, E22    lib/Telemetry/TelemetrySanitize.h and lib/E22Config/E22Config.cpp
--   Telemetry        lib/Telemetry/Telemetry.cpp; Frame: the size of a packet
--   Lora             lib/LoraLink/LoraLink.cpp; Wait and Session: its calls; Init: the set-up of the UART
--                    in src/main.cpp with lib/LoraLink/UartInitRetry.h
--   Nextion          lib/BmsAlgo/BmsNextionPacket.cpp; Budget, Progress, Stale and Converge: theorems
--   Display          lib/DisplayHMI/DisplayHMI.cpp; Helpers: lib/HMIHelpers; Screen and Touch: theorems
--   Tasks            src/main.cpp. Hmi: the display task, with Button and Pack; System: the mailbox and the
--                    set-up; Transmit: the callback of the uplink, with Offer, Room, Drain, Bytes and Rate;
--                    Radio: a round of the radio task, with Run and Budget; Vehicle: the four tasks
--                    step by step in any order, with Hardware and Phases for what they stand on and where they
--                    stand; Order: what the steps do to the state machine; Contactors, Stop, Fault,
--                    Rate and Budget: theorems; Fits: the widths of the values that pass between
--                    the tasks; Recorded: a log of what is offered to the radio
--   Diagnostic       src/e22_diagnostic.cpp, a program for the bench that is built in place of the
--                    tasks. Settings: what it decodes; Wait and Session: its calls
--   Replay           tools/can_replay/can_replay.cpp, which runs the parsers over a recorded log. Text: what
--                    it uses of the C++ library; Clean: the lines and the logs that pass; Lines, Checks and
--                    Verdict: theorems
--   Fixtures         concrete devices and data; the Tests of each part apply the theorems to them
--
-- How state is modelled. File-scope variables and the members of a singleton are a record; a
-- function that changes them returns the new one. A function that fills a structure and says whether
-- it did is an Option. A function that another task can enter is one step, since the source holds a
-- mutex or reads and writes one atomic variable; a run of the system is a sequence of such steps.
-- The tasks run on two cores: each is cut where it touches the mailbox, the state machine or the
-- contactors, and a schedule is any list of the steps. Before its set-up and after a failed one the
-- CAN task has no manager behind the torque sink. Unsigned integers are numbers with their
-- wrap-around written out where the source lets them wrap: the clocks (32 bits, and 64 bits for the
-- radio) and the counters that the CAN driver keeps. Logging changes nothing but the variables that
-- throttle it.
--
-- Bounds. The bounded loops of the source are bounded alike: the drain of the CAN queue by
-- CAN_RX_DRAIN_MAX, which is the length of the driver's queue, the replay by the burst of the
-- scheduler, and the set-up of the UART by LORA_UART_MAX_INIT_ATTEMPTS. The wait for the radio's AUX
-- pin has as many turns as its timeout has milliseconds, or ticks, and one more: each turn delays,
-- so that the clock has then passed it. A number is printed with one division more than its value,
-- which is more than it has digits.
--
-- Parameters. The FreeRTOS queue, the SPI bus with the MCP23S17 behind it, the TWAI driver, the HAL
-- of the radio, the UART drivers of the display and of the radio, the mailbox of snapshots,
-- pdMS_TO_TICKS, the send callback of the uplink, the speed that is computed in floating point and
-- the smoothed values of the gauges are arguments of the models. What is relied on is stated: the
-- laws of the queue (Queue), a chip that keeps what is written to its registers
-- (Relay.Verify.IsRegisterFile), a driver that reports what was installed and started
-- (Can.Begin.Driver.IsTwai), a clock that runs while the radio is polled (Lora.IsClocked and
-- Diagnostic.Wait.IsClocked). Tasks.Vehicle.Hardware.Board puts together what the tasks stand on.
--
-- Not modelled. Floating point: rpmToSpeedKmhX10 and the smoothing of the gauges. The set-up of
-- FreeRTOS, the pins and static assertions of include/SystemConfig.h, the log lines, the hex dumps
-- and the monitoring of stacks. The priorities of the tasks, so that more orders are covered than
-- can occur. What a call does through the stale pointer of the torque sink after a failed set-up of
-- the CAN task. The scripts. The resets that exist only in the native tests.
pub mod Base
pub mod Config
pub mod Data
pub mod Safety
pub mod Actuator
pub mod Queue
pub mod Vcu
pub mod Relay
pub mod Parse
pub mod Can
pub mod Bms
pub mod Buffer
pub mod Uplink
pub mod Sanitize
pub mod E22
pub mod Telemetry
pub mod Lora
pub mod Nextion
pub mod Diagnostic
pub mod Display
pub mod Tasks
pub mod Fixtures
pub mod Replay

-- ===== src/Lib.antt =====
-- Verification of the simulation engine of nrtb_redo and of the common library it stands on.
--
-- The program. sim_core (cpp/sim_engine/sim_core) owns the objects of a simulation and works in turns:
-- it takes the messages that other threads queued, lets worker threads call `tick` of every object,
-- finds the collisions, lets them call `apply`, resolves the collisions, gives out the list of contacts
-- and a report, and sleeps until the next turn. Objects (cpp/sim_engine/base_object) are moved by
-- effectors in three maps. Work packets, collisions and messages go through queues
-- (cpp/common/abs_queue), positions are vectors (cpp/common/point/triad.h), and texts are handled by
-- the helpers of cpp/common/common_rl. A bot (cpp/sim_engine/bot_mk1) is an object with the effectors of
-- its drive, hovering and gravity; its commands are lines from its own connection (cpp/common/sockets),
-- which cpp/sim_engine/bcp_server accepts and turns into a bot of the simulation. Its radar
-- (cpp/sim_engine/radar) reports the contacts. At the other end of the connection are control programs
-- (cpp/BCPs) that read these reports and put orders. The main program (cpp/sim_engine/main) starts all
-- this, writes the reports of the turns to a database and shuts it down. Settings come from files and
-- the command line by cpp/common/confreader; cpp/common/singleton and cpp/common/serializer give the
-- global instances and the ids, cpp/common/logger writes the log.
--
-- The files.
--   Common, Common/*        names, numbers and tests, lists, machine words, outcomes of C++ functions,
--                           byte strings, what a stream takes apart (Stream) and how it writes and
--                           reads an int (Decimal), and whole numbers for examples
--   Floats                  the machine's floating point numbers, a parameter of the model
--   Queue                   abs_queue: the state and each method as a whole
--   Queue/Threads           the producers and workers of a queue as a step relation, `push` in three
--                           steps; Account: the counters; Order: the order of the items
--   Text, Text/*            common.cpp: split, gsub, mconvert, trim, the change of case, the HTTP
--                           encodings and dateflip
--   Triad, Rotatable        triad.h; the rotatable of base_object
--   Triad/Text              triads written to and read from streams; RoundTrip: the way there and back;
--                           Whole: whole numbers as floats in a text
--   Object                  base_object: effectors, tick and apply; Collision: check_collision;
--                           Attribs and Calls: the attribute maps under any sequence of calls
--   Timer                   hires_timer: the stop watch in microseconds; Bounds: against the clock
--   Sim                     sim_core: the state, the calls of other threads, the contacts
--   Sim/Packets, Workers    the work packets of a turn and the workers that empty them
--   Sim/Init                turn_init; Sim/Run: tick, collision_check, resolve_collisions and run_sim;
--                           Run/Ticks, Found, Resolved, Contacts, Ends: what they do; Kept, Kept/Phases and
--                           Reports: the reports of a run
--   Sim/Objects             base objects in the simulation
--   Config                  confreader: the values and their lookups; Order and Sorted: their order
--   Config/Line, File       one line; a file with its includes. Blank, Lines, Print, Loaded: what files
--                           give
--   Config/Args             the command line; Override and CommandLine: what it does to the values
--   Socket                  tcp_socket: the connection, the clock, the results of a call
--   Socket/Put, Get, Getln  the three transfers; Accounted, Kept, Line, Loop, Whole: what becomes of the
--                           bytes
--   Socket/Address, Listen  addresses as text, bind, connect and close; the listening thread, its
--                           start (Started), and what becomes of the connections (Pending)
--   Steer                   diff_steer: commands, pre_tick and post_tick; Exclusive: the settings
--   Steer/Kit, Spares       hovering and gravity; all four as one class of effectors, and their ticks
--   Bot, Bot/*              bot_mk1: the router (Answers), the receiver (Received), its life in the
--                           simulation (Life), the transmitter (Sent); Server: bcp_listener::processor
--   Radar                   radar_mk1; Sightings: what it reports
--   Bcp                     what the control programs target and kamikaze share: the state of the bot as
--                           they read it and the thread that reads from the connection; Lvar: against
--                           what the bot and the radar write; Worker: the thread
--   Bcp/Target, Kamikaze    the loop of each program and its orders; Orders: the orders in the bot;
--                           Course: those of target
--   Singleton               get_reference and delete_me as steps of threads; Instances: the instances;
--                           Deletes: what a deletion can leave behind
--   Serializer              the sequence of the ids
--   Logger                  logger and common_log: the records on their way to the file; Written: what gets
--                           there
--   Engine                  the main program: Run: the number of a run and the health check loop;
--                           Due: what the reports call for; Reports: the thread that writes them;
--                           Hangs: the end of the program when the database fails
--   */Tests                 the theorems at concrete values
--
-- The correspondence. A record stands for each struct or class, with the members' names, and a
-- function for each method, which returns the new state. A method that may throw, block, end the
-- program or be undefined returns an `Outcome` (texts), an `Attempt` (queues) a `Flow` (the
-- simulation), a `Call` (sockets), a `Ran` (bots) or an `Option` (configurations, `none` where nothing
-- is defined); what is undefined in C++ is `undefined`, never a value. Pointers to objects are
-- references into `store`; pointers to effectors are ids into `effectors`. The virtual methods of
-- objects and effectors are parameters, `ObjectClass` and `EffectorClass`; `Sim.Objects.base_class`
-- fills the first with the methods of base_object. Counters of type `std::atomic<int>` wrap at 2 ^ 32,
-- `unsigned long long` at 2 ^ 64. Bytes are numbers. What the workers, the other threads and the
-- clocks do in a turn is the argument `Surroundings`; a theorem that says "whatever fair orders" holds
-- for every such order. A call on a socket takes the answers of the operating system as a list and the
-- readings of `time` as a function of their number, and waits when the list ends. Opening a file,
-- converting a value or a double to a float, reading and writing a float or an address are parameters.
-- Other threads shut the queue of the listener down where a `Round` says so, and take nothing from it. `FloatText` is the
-- one of the triads: `show` for `<<` and `number` for `>>` of one float; a theorem about a round trip
-- asks what `number` makes of a written value, `rounded`, and shows that all else comes through.
--
-- Loops. `split_loop` and `gsub_loop` run on the length of the text, and the theorems about `split`
-- and `gsub` show that this is enough; `unhex_loop` on one round more than the bytes, likewise;
-- `lines_loop` runs on one round more than the bytes of the file, and Config.Lines shows that this is
-- enough; `read` on the depth of the includes, and gives `none` beyond it, where the program runs on
-- or out of stack; the loops of put and get run on the answers of the operating system and
-- `getln_loop` on one round more, since a round takes an answer or ends; `resolve_loop` on the number
-- of collisions, since resolving one records none. `loop` runs on the list of surroundings, and waits
-- for more at its end; so do the loops of the threads and of the main and control programs, on lists
-- of what their rounds meet. `poll_loop` runs on the countdown of the source, and the digits of a
-- number on the number itself.
--
-- Not modelled: where the components write log lines, terminal output, texts written by `as_str`, the
-- locks of the objects,
-- the memory order of atomics, overflow of the packets' int counters, of the run time in tenths of a
-- second and of the radar's counter, and floating point rounding, of which a theorem names what it needs.
-- Of the sockets, constructors and destructors; of the bot, its copy and the starts of its threads; of
-- the main program, the record of the configuration and the loading of plugins; of the control
-- programs, cal_bot, the sleeps and the end after an exception. The ipc channels are a map of names to queues,
-- and the rail gun (cpp/sim_engine/railgun) does not compile.
pub mod Common
pub mod Floats
pub mod Queue
pub mod Text
pub mod Triad
pub mod Rotatable
pub mod Object
pub mod Sim
pub mod Timer
pub mod Config
pub mod Socket
pub mod Steer
pub mod Bot
pub mod Radar
pub mod Bcp
pub mod Singleton
pub mod Serializer
pub mod Engine
pub mod Logger

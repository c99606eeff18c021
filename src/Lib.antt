-- ===== src/Lib.antt =====
-- somethingremotelygood: access to containers over SSH, with the keys on an ESP32, and a Python layer
-- that watches the users.
--
-- This library models the Python of the repository. The rest, the manager in C, the client in Go and
-- most of the firmware in C++, is not modelled, except for the two framing functions of the firmware
-- that the Python talks to.
--
-- The parts and the files that model them:
--
-- Base, with Base/Tests, Base/Lists, Base/Texts, Base/Hex, Base/Results and Base/Effects, has what all
-- parts share: byte strings as lists over the native numbers, Python's methods on them, results with
-- Python's exceptions, and Exec, calls that change a state and may raise. Ends, Post, Yields and Same
-- are the predicates on such calls: a call comes back, a returned value satisfies a predicate, a call
-- always returns a value, a call leaves a part of the state as it was. Leads is one more: what holds of
-- value and state after a call.
--
-- Wire is struct.pack and struct.unpack with ">I", and bytes(list).
--
-- Port is what the wrapper scripts take from outside: pyserial's port, time.time and time.sleep.
-- Port/Laws has the hypotheses on it: Progress (a read takes at least a millisecond and comes back),
-- Lifecycle (so do opening, closing and reading a line), Buffered (bytes that have arrived are read
-- in order). Times are in milliseconds.
--
-- Firmware is sendResponse and readPacket of esp32/ssh_agent/src/main.cpp.
--
-- Bridge is wrapper/esp32_agent_bridge.py. Object is the instance with its port, Blobs the SSH
-- strings (_ssh_string to _build_ed25519_sig_blob), Link the packets (send_to_esp32,
-- recv_from_esp32), Replies and Requests the four requests to the device (unlock, lock,
-- request_identities, sign_request), Dispatch the client messages (handle_agent_request), Socket what
-- the loop takes of a stream socket, Client the loop itself (handle_client). There a request is one
-- step, since it holds serial_lock from its packet to the reply; Threads has the clients' threads with
-- the lock itself, where a schedule says which thread goes on next, and compares the two; a thread in
-- a call that does not return keeps the lock. Process is
-- start_unix_server, run and shutdown, over the calls of the operating system.
--
-- Keytool is wrapper/esp32_keytool.py. Packets is send_packet and read_packet, Commands are the five
-- commands, Main is main after the arguments were parsed.
--
-- Json is the data type of the values that json.loads reads; json.loads itself is a parameter.
--
-- Sanitizer is src/ai/sanitizer.py. Regex is the part of Python's re that the patterns use, by
-- derivatives, Patterns are the patterns, Lines is filter_injection_patterns, limit_length,
-- format_numbered_commands and sanitize_commands, Prompt is build_analysis_prompt and Response is
-- validate_llm_response.
--
-- Database is src/ai/db_access.py. Bind is _bind_params, which writes parameters into SQL, Cells the
-- conversion of the fields that the program sqlcipher prints, Rows the rows as dicts, Connection the
-- class SQLCipherConnection with get_connection, and Queries the eight queries. A connection is a
-- number in a store of flags; sqlcipher is a parameter, a call that may raise.
--
-- Anomaly is src/ai/anomaly_detect.py: Durations is compute_durations, with the dict as a function,
-- Hours is bucket_by_hour, Days is sessions_per_day, Arithmetic is compute_mean_stddev over Python's
-- floats, which are a parameter with the order laws of Ordered, Analysis is analyze_user on the
-- sessions of the two periods, and Run is analyze_user with its queries and main after the arguments.
-- Times are Unix times in UTC.
--
-- CommandAnalysis is src/ai/command_analysis.py. Machine is what it takes from outside: programs,
-- files, the database and the language model. Volume is mount_volume and unmount_volume, Report is
-- read_shell_history and save_json_report, Analyze is analyze_anomaly, which calls the sanitizer's
-- sanitize_commands, build_analysis_prompt and validate_llm_response.
--
-- PdfReport is src/ai/generate_report_pdf.py. Values are Python's operations on what json.load gave,
-- Canvas the object of fpdf2 as the list of the calls on it, with section_title, label_value and
-- risk_badge, Rows, Details and History the parts of generate_pdf, Page generate_pdf and main after
-- the arguments. It reads what CommandAnalysis/Report writes; Page/Contents has the texts of such a
-- report. Python's str, upper and lower are
-- parameters, and so is which calls fpdf2 refuses.
--
-- Generators is src/ai/generate_user_baseline.py (Baseline) and src/ai/generate_test_data.py
-- (TestData, TestData/Run). Host is what they use of random, time, os and the connection, Integers the
-- integers that they compute with, Sessions the rows of a session. Writes says which rows a call adds.
--
-- Examples has the concrete ports, machines, databases, runs and inputs.
--
-- Loops. The loop over a packet's header ends by its deadline, and each read takes a millisecond, so
-- timeout + 1 rounds are enough; so are 30001 rounds for the key tool's wait of 30 seconds. The loop
-- over a message body reads a byte or more in each round, so as many rounds as bytes are enough. The
-- client loop runs for a given number of rounds. A number n has at most n + 1 digits. A loop that
-- is out of rounds has the result stuck, which no exception handler catches.
--
-- The loop of the server, and the loop that draws an hour for a baseline, run for a given number of
-- rounds: an hour is found if fewer draws than that miss the window.
--
-- Not modelled: what is printed (but for the public key of the key tool), signals that come while the
-- bridge's process does not wait in accept, threads outside of serial_lock, argparse, list_pending and
-- list_reports, which only print, and call_llm, which is an HTTP request. The header and footer of a
-- page of the PDF are modelled, but when fpdf2 calls them is left to its add_page and output.
pub mod Base
pub mod Wire
pub mod Port
pub mod Firmware
pub mod Bridge
pub mod Keytool
pub mod Json
pub mod Sanitizer
pub mod Database
pub mod Anomaly
pub mod CommandAnalysis
pub mod PdfReport
pub mod Generators
pub mod Examples

-- ===== src/Lib.antt =====
-- Secure RFID login: verification of the program under app/ and of the boards under arduino/.
--
-- A card holds a name, a surname, and an encrypted user name and password. An Arduino board reads it and
-- sends it over a serial port. A thread of the program keeps in touch with the board, asks a MySQL table
-- whether the card's serial number is allowed, decrypts the credentials and puts them into globals. A
-- WebSocket server on the same machine hands them to a page, if the page is the authorized one, asks for
-- them with INIT, and the user agrees.
--
-- The files and the code that they model (paths from the repository's root; W is an abstract state of
-- the world, and each library is a record of functions on it):
--   Common     numbers, lists, C buffers and strings (strlen, strcpy, strcat, memcpy); Run, the result of
--              code that may access memory out of bounds or run out of fuel
--   Crypt      app/libwebsockets-master/srl/EncDec.c, over PolarSSL's AES (Aes)
--   Database   app/libwebsockets-master/srl/DatabaseManager.c, over the MySQL client (Mysql)
--   Host       the functions of rs232.c, Sleep and time, as ArduinoRFID.c uses them
--   Device     app/libwebsockets-master/srl/ArduinoRFID.c; the copies of this file, of EncDec.c and of
--              DatabaseManager.c in app/srl-rfid-writer/argoRFID-Writer are the same code
--   Reader     app/libwebsockets-master/srl/ArgoRFID_Reader.c; its globals are the record Reader
--   Server     app/libwebsockets-master/srl/secure-rfid-login.c, over libwebsockets (Connection): Origin is
--              reject_request, Credentials callback_dumb_increment and what it calls, Mirror
--              callback_lws_mirror, PollFds the external poll array of callback_http, Http its other
--              cases, Service start_server_socket, Dump dump_handshake_info
--   Writer     app/srl-rfid-writer/argoRFID-Writer/ArgoRFID-Writer.c, the program that writes a card
--   Threads    the reader thread and the server thread in steps on the globals that they share
--   Startup    app/libwebsockets-master/srl/system-register.c, over Windows' registry (Registry)
--   Tray       app/libwebsockets-master/srl/tray.c, over Windows (Shell); Main is WinMain
--   Uart       app/serial.c and app/ArgoPasswordManager.c, over Linux' serial port (Uart)
--   Board      arduino/argoRFID_Reader and arduino/argoRFID_Writer, over the Arduino core (Uno) and the MFRC522
--              library (Mfrc522): Mifare is MifareRFID.cpp, which both have, Layout the card, Reading and
--              Writing the two sketches, Passage and Way the parts together with the computer's two programs
--   Login      the parts together: from the board's message to what the page gets
--   Tests      a simulated machine, and the theorems at concrete inputs
--
-- Numbers are natural numbers, a byte is one, and an int that can be negative is an integer of Common.Int.
-- A C function that changes a buffer returns the buffer. Where C leaves a value indeterminate (a missing
-- return, an uninitialised buffer) it is a parameter or an Option. The while loops take fuel:
-- wait_for_device one round for each try of a port, wait_message one for each poll, wait_serial_number one
-- for each poll, the reader's loop one for each keep-alive; the theorems on them give the fuel that is
-- enough, or start from a call that came back. The mirror's loop takes 32 rounds, which a ring of 32 never
-- needs in full.
--
-- The modules but Threads take the globals as they are when a callback starts. Threads cuts the reader's
-- loop and a request into one step for each statement on a global and lets the steps come in any order;
-- decryption may be seen after any number of its bytes. A read past a buffer's end stops a thread there.
--
-- The service loop takes one round of fuel for each poll, and the loop over its entries one for each place
-- of the array and one more. A message to the window carries the messages that come while its boxes are open,
-- so that the window procedure needs no fuel.
--
-- The loops of the sketches over what has come in take one round of fuel for each byte; more fuel than the
-- receive buffer holds bytes is enough. More bytes come in only while the board waits (delay) and between
-- two calls of loop. read_blocks has no return, so that its result is a parameter, returned, which may depend
-- on the value that it worked out.
--
-- Not modelled: what the code prints and logs; a second reader thread, which the menu's item Reset starts; the
-- writer's questions; main of ArgoPasswordManager.c, which does not compile; the vendored libraries
-- (libwebsockets, rs232.c, PolarSSL's aes.c, sha1.c, zlib) and Windows, which are parameters; crypt.h with the
-- key and the vector, which the repository does not hold and which are parameters; the programs under
-- app/example and the test programs of libwebsockets, with older copies of files of srl/; setup of the two
-- sketches, and their sounds and lights.
pub mod Common
pub mod Board
pub mod Crypt
pub mod Database
pub mod Host
pub mod Device
pub mod Reader
pub mod Server
pub mod Login
pub mod Writer
pub mod Threads
pub mod Startup
pub mod Tray
pub mod Uart
mod Tests

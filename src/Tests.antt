-- ===== src/Tests.antt =====
-- The development at concrete inputs: a simulated machine, and each theorem applied there.
mod World
mod Storage
mod SerialPort
mod Cards
mod Requests
mod Mirrors
mod Sockets
mod Downloads
mod Typing
mod Writing
mod Races
mod Starts
mod Life
mod Services
mod Uarts
mod Lying
mod Boards
mod BoardLines
mod Ways

-- ===== src/Clarification.antt =====
-- clarification: questions to the user, their answers, and the progress of a packet.
pub mod Contracts
pub mod Build
pub mod Answers
pub mod Handoff
pub mod Progress

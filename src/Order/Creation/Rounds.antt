-- ===== src/Order/Creation/Rounds.antt =====
-- How the passes of a creation step follow one another: a pass calls itself again only after it stored
-- an abort, and the pass after that does not.
pub mod Claims
pub mod Settlements
pub mod Ends

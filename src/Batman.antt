-- ===== src/Batman.antt =====
-- des-batman/trunk/src: of the B.A.T.M.A.N. daemon, the sliding windows and the table of the
-- numbers of packets, by which packets that come again are told.
pub mod Window
pub mod Slot
pub mod RlSeq

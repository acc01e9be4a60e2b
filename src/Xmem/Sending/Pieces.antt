-- ===== src/Xmem/Sending/Pieces.antt =====
-- The pieces that writeToClient sends have the size that the bandwidth throttler grants.

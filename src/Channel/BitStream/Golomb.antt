-- ===== src/Channel/BitStream/Golomb.antt =====
-- Exp-Golomb codes: BitEGReader of libs/chan/bits.cc.

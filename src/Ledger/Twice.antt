-- ===== src/Ledger/Twice.antt =====
-- `llm.run` twice under one key: the second is answered from the row of the first.

-- ===== src/Validator/Trust/Table.antt =====
-- From the whole table to one rule.
use grpo_guard.Prelude.{All}
use grpo_guard.Rules.Table.{all_rules}
use grpo_guard.Schema.Decision.{
  Code, d001, d002, d003, d004, l001, l002, l003, l004, l005, l006, l007, l008, m001, m002, m003,
  m004, m005, p001, p002, p003, p004, p005, p006, p007, p008, p009, r001, r002, r003, r004, r005,
  r006, r008, t001, t002, t003, t004, t005,
}

-- A predicate on every entry of ALL_RULES holds of each code: the table lists every code.
pub at_code : (P : Code → Type 0) → All P all_rules → (c : Code) → P c
at_code P h d001 = h.0
at_code P h d002 = h.1.0
at_code P h d003 = h.1.1.0
at_code P h d004 = h.1.1.1.0
at_code P h l001 = h.1.1.1.1.0
at_code P h l002 = h.1.1.1.1.1.0
at_code P h l003 = h.1.1.1.1.1.1.0
at_code P h l004 = h.1.1.1.1.1.1.1.0
at_code P h l005 = h.1.1.1.1.1.1.1.1.0
at_code P h l006 = h.1.1.1.1.1.1.1.1.1.0
at_code P h l007 = h.1.1.1.1.1.1.1.1.1.1.0
at_code P h l008 = h.1.1.1.1.1.1.1.1.1.1.1.0
at_code P h m001 = h.1.1.1.1.1.1.1.1.1.1.1.1.0
at_code P h m002 = h.1.1.1.1.1.1.1.1.1.1.1.1.1.0
at_code P h m003 = h.1.1.1.1.1.1.1.1.1.1.1.1.1.1.0
at_code P h m004 = h.1.1.1.1.1.1.1.1.1.1.1.1.1.1.1.0
at_code P h m005 = h.1.1.1.1.1.1.1.1.1.1.1.1.1.1.1.1.0
at_code P h p001 = h.1.1.1.1.1.1.1.1.1.1.1.1.1.1.1.1.1.0
at_code P h p002 = h.1.1.1.1.1.1.1.1.1.1.1.1.1.1.1.1.1.1.0
at_code P h p003 = h.1.1.1.1.1.1.1.1.1.1.1.1.1.1.1.1.1.1.1.0
at_code P h p004 = h.1.1.1.1.1.1.1.1.1.1.1.1.1.1.1.1.1.1.1.1.0
at_code P h p005 = h.1.1.1.1.1.1.1.1.1.1.1.1.1.1.1.1.1.1.1.1.1.0
at_code P h p006 = h.1.1.1.1.1.1.1.1.1.1.1.1.1.1.1.1.1.1.1.1.1.1.0
at_code P h p007 = h.1.1.1.1.1.1.1.1.1.1.1.1.1.1.1.1.1.1.1.1.1.1.1.0
at_code P h p008 = h.1.1.1.1.1.1.1.1.1.1.1.1.1.1.1.1.1.1.1.1.1.1.1.1.0
at_code P h p009 = h.1.1.1.1.1.1.1.1.1.1.1.1.1.1.1.1.1.1.1.1.1.1.1.1.1.0
at_code P h r001 = h.1.1.1.1.1.1.1.1.1.1.1.1.1.1.1.1.1.1.1.1.1.1.1.1.1.1.0
at_code P h r002 = h.1.1.1.1.1.1.1.1.1.1.1.1.1.1.1.1.1.1.1.1.1.1.1.1.1.1.1.0
at_code P h r003 = h.1.1.1.1.1.1.1.1.1.1.1.1.1.1.1.1.1.1.1.1.1.1.1.1.1.1.1.1.0
at_code P h r004 = h.1.1.1.1.1.1.1.1.1.1.1.1.1.1.1.1.1.1.1.1.1.1.1.1.1.1.1.1.1.0
at_code P h r005 = h.1.1.1.1.1.1.1.1.1.1.1.1.1.1.1.1.1.1.1.1.1.1.1.1.1.1.1.1.1.1.0
at_code P h r006 = h.1.1.1.1.1.1.1.1.1.1.1.1.1.1.1.1.1.1.1.1.1.1.1.1.1.1.1.1.1.1.1.0
at_code P h r008 = h.1.1.1.1.1.1.1.1.1.1.1.1.1.1.1.1.1.1.1.1.1.1.1.1.1.1.1.1.1.1.1.1.0
at_code P h t001 = h.1.1.1.1.1.1.1.1.1.1.1.1.1.1.1.1.1.1.1.1.1.1.1.1.1.1.1.1.1.1.1.1.1.0
at_code P h t002 = h.1.1.1.1.1.1.1.1.1.1.1.1.1.1.1.1.1.1.1.1.1.1.1.1.1.1.1.1.1.1.1.1.1.1.0
at_code P h t003 = h.1.1.1.1.1.1.1.1.1.1.1.1.1.1.1.1.1.1.1.1.1.1.1.1.1.1.1.1.1.1.1.1.1.1.1.0
at_code P h t004 = h.1.1.1.1.1.1.1.1.1.1.1.1.1.1.1.1.1.1.1.1.1.1.1.1.1.1.1.1.1.1.1.1.1.1.1.1.0
at_code P h t005 = h.1.1.1.1.1.1.1.1.1.1.1.1.1.1.1.1.1.1.1.1.1.1.1.1.1.1.1.1.1.1.1.1.1.1.1.1.1.0

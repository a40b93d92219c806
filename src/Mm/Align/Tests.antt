-- ===== src/Mm/Align/Tests.antt =====
-- Concrete roundings.
use kernel_r.Prelude.{arith}
use kernel_r.Mm.Align.Laws.{AlignsUp, align_to-AlignsUp}

align_to-AlignsUp_example : AlignsUp 5000 12
align_to-AlignsUp_example = align_to-AlignsUp 5000 12 (omega arith) (omega arith)

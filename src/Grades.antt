-- ===== src/Grades.antt =====
-- The grades that several contexts declare: the colour of a project and the strength of evidence.
use gldaassurance.Base.{ℕ}

pub data Band : Type 0 where
  green amber red : Band

-- `BAND_ORDER`
abbrev pub band_rank : Band → ℕ
band_rank green = 0
band_rank amber = 1
band_rank red = 2

pub data ConfidenceBand : Type 0 where
  high_confidence medium_confidence low_confidence : ConfidenceBand

-- `CONFIDENCE_ORDER`
abbrev pub confidence_rank : ConfidenceBand → ℕ
confidence_rank low_confidence = 0
confidence_rank medium_confidence = 1
confidence_rank high_confidence = 2

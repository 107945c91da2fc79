-- ===== src/Prediction/Numbering.antt =====
-- The versions of a prediction series (src/planagent/services/prediction.py): their numbers and
-- which one is active.
use ming_jian.Base.{◌<◌, List, [], ◌∷◌}
use ming_jian.Prediction.{PredictionVersion}
use ming_jian.Prediction.Revision.{max_number}
use ming_jian.Prediction.Change.{Change}

-- Each version has a greater number than the older ones of its series.
abbrev pub Descends : List PredictionVersion → Type 0
Descends [] = Unit
Descends (v ∷ vs) = (max_number v.series_id vs < v.version_number) × Descends vs

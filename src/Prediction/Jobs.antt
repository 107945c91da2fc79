-- ===== src/Prediction/Jobs.antt =====
-- The open revision jobs of a prediction series (src/planagent/services/prediction.py).
use ming_jian.Prediction.Change.{Change}

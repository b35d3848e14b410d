-- ===== src/Media.antt =====
-- models.rs: a version of an item (`Media`), its parts and their streams. Of each struct, the
-- fields that the modelled code reads; `i64` fields are integers, strings are `Text`.
use replex.Prelude.{Option, List}
use replex.Prelude.Int.{ℤ}
use replex.Prelude.Text.{Text}

pub record Stream : Type 0 where
  pub stream_type : Option ℤ
  pub decision : Option Text

pub record MediaPart : Type 0 where
  pub id : ℤ
  pub streams : List Stream

pub record Media : Type 0 where
  pub id : ℤ
  pub bitrate : Option ℤ
  pub video_resolution : Option Text
  pub width : Option ℤ
  pub height : Option ℤ
  pub parts : List MediaPart

-- ===== src/Plots/Canvas.antt =====
-- The frame of the plots in plots.cpp, and the grid lines and labels that WriteSvg draws in it. A
-- shape is kept as its coordinates; what the file says of fonts and colours is left out.
use espacekilly.Base.{◌||◌, Option, none, some, List, [], ◌∷◌, ◌++◌, if◌then◌else◌}
use espacekilly.Plots.Double.{Double}
use espacekilly.Plots.Ticks.{Label, Tick}

pub record Canvas (D : Type 0) : Type 0 where
  pub width : D
  pub height : D
  pub margin_left : D
  pub margin_right : D
  pub margin_top : D
  pub margin_bottom : D
  pub font_scale : D
  pub x_min : D
  pub x_max : D
  pub y_min : D
  pub y_max : D

-- A line, and a text with the point that it is anchored at.
pub data Shape (D : Type 0) : Type 0 where
  line : (x1 y1 x2 y2 : D) → Shape D
  text : (x y : D) → Label D → Shape D

module _ {D : Type 0} (n : Double D) where
  -- A canvas with the margins that the struct starts with.
  abbrev pub canvas : D → D → D → D → Canvas D
  canvas x_min x_max y_min y_max = record {
    width = n.literal 1920 0;
    height = n.literal 1080 0;
    margin_left = n.literal 100 0;
    margin_right = n.literal 35 0;
    margin_top = n.literal 60 0;
    margin_bottom = n.literal 85 0;
    font_scale = n.literal 10 1;
    x_min = x_min;
    x_max = x_max;
    y_min = y_min;
    y_max = y_max;
  }

  abbrev pub left : Canvas D → D
  left c = c.margin_left

  abbrev pub right : Canvas D → D
  right c = n.sub c.width c.margin_right

  abbrev pub top : Canvas D → D
  top c = c.margin_top

  abbrev pub bottom : Canvas D → D
  bottom c = n.sub c.height c.margin_bottom

  abbrev pub px : Canvas D → D → D
  px c x =
      n.add (left c)
        (n.mul (n.div (n.sub x c.x_min) (n.sub c.x_max c.x_min)) (n.sub (right c) (left c)))

  abbrev pub py : Canvas D → D → D
  py c y =
      n.sub (bottom c)
        (n.mul (n.div (n.sub y c.y_min) (n.sub c.y_max c.y_min)) (n.sub (bottom c) (top c)))

  -- A text, where the label is not empty.
  abbrev pub text_at : D → D → Option (Label D) → List (Shape D)
  text_at x y none = []
  text_at x y (some l) = text x y l ∷ []

  -- One tick of the y axis, and one of the x axis.
  abbrev pub draw_y : Canvas D → Tick D → List (Shape D)
  draw_y c t =
      let y = py c t.position in
      line (left c) y (right c) y
      ∷ text_at (n.sub (left c) (n.literal 100 1)) (n.add y (n.mul (n.literal 40 1) c.font_scale))
          t.label

  abbrev pub draw_x : Canvas D → Tick D → List (Shape D)
  draw_x c t =
      let x = px c t.position in
      line x (top c) x (bottom c)
      ∷ text_at x (n.add (bottom c) (n.mul (n.literal 220 1) c.font_scale)) t.label

  -- The two loops of WriteSvg over the ticks.
  unfoldable pub grid_y : Canvas D → List (Tick D) → List (Shape D)
  grid_y c [] = []
  grid_y c (t ∷ ts) =
      let rest = grid_y c ts in
      if n.lt t.position c.y_min || n.lt c.y_max t.position then rest else draw_y c t ++ rest

  unfoldable pub grid_x : Canvas D → List (Tick D) → List (Shape D)
  grid_x c [] = []
  grid_x c (t ∷ ts) =
      let rest = grid_x c ts in
      if n.lt t.position c.x_min || n.lt c.x_max t.position then rest else draw_x c t ++ rest

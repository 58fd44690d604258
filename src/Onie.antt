-- ===== src/Onie.antt =====
-- internal/onie/onie.go: the choice of the image that is served to a machine. What is logged, the
-- address of the client included, is left out.
use sonic_operator.Base.{
  ◌≡◌, ◌≢◌, ◌⊎◌, inl, inr, subst, Bool, true, false, All, refl, ap, sym, ◌∙◌, arith, Text, codes,
  text_eq, text_eq_iff, ◌++◌, Option, none, some, List, [], ◌∷◌, if◌then◌else◌, Dict, lookup,
  insert, lookup-insert,
}

pub record OnieImage : Type 0 where
  pub vendor : Text
  pub onie_updater : Text
  pub onie_installer : Text

images_loop : List OnieImage → Dict OnieImage → Dict OnieImage
images_loop [] images = images
images_loop (img ∷ imgs) images = images_loop imgs (insert img.vendor img images)

-- The map that Register makes of the configured images.
unfoldable pub images_of : List OnieImage → Dict OnieImage
unfolding images_loop
images_of imgs = images_loop imgs []

-- What a request gets: an error, or what the file server has for a path.
pub data Reply : Type 0 where
  no_image : Reply
  unknown_operation : Text → Reply
  file : Text → Reply

-- The path of the image that an operation asks for.
unfoldable pub image_reply : OnieImage → Text → Reply
image_reply img operation =
    if text_eq operation (codes "onie-update")
    then file (codes "/" ++ img.onie_updater)
    else if text_eq operation (codes "os-install")
    then file (codes "/" ++ img.onie_installer)
    else unknown_operation operation

reply_for : Text → Option OnieImage → Reply
unfolding image_reply
reply_for operation none = no_image
reply_for operation (some img) = image_reply img operation

-- ServeHTTP, for the headers ONIE-MACHINE and ONIE-OPERATION
unfoldable pub serve : Dict OnieImage → Text → Text → Reply
unfolding reply_for
serve images machine operation = reply_for operation (lookup machine images)

-- Of the configured images of a machine the last one counts.
or_else : Option OnieImage → Option OnieImage → Option OnieImage
or_else (some img) other = some img
or_else none other = other

last_image : Text → List OnieImage → Option OnieImage
unfolding or_else
last_image machine [] = none
last_image machine (img ∷ imgs) =
    or_else (last_image machine imgs) (if text_eq img.vendor machine then some img else none)

or_else_assoc : (a b c : Option OnieImage) → or_else (or_else a b) c ≡ or_else a (or_else b c)
unfolding or_else
or_else_assoc none b c = refl
or_else_assoc (some a) b c = refl

found_first :
    (v : OnieImage) (k machine : Text) (images : Dict OnieImage)
    → lookup machine (insert k v images)
      ≡ or_else (if text_eq k machine then some v else none) (lookup machine images)
unfolding or_else
found_first v k machine images =
    ground (arith, lookup-insert k machine v images, text_eq_iff k machine)

loop-last :
    (machine : Text) (imgs : List OnieImage) (images : Dict OnieImage)
    → lookup machine (images_loop imgs images)
      ≡ or_else (last_image machine imgs) (lookup machine images)
unfolding images_loop or_else last_image
loop-last machine [] images = refl
loop-last machine (img ∷ imgs) images =
    loop-last machine imgs (insert img.vendor img images)
    ∙ (rw (found_first img img.vendor machine images) refl)
    ∙ sym (
        or_else_assoc (last_image machine imgs)
          (if text_eq img.vendor machine then some img else none) (lookup machine images))

or_else-none : (a : Option OnieImage) → or_else a none ≡ a
unfolding or_else
or_else-none none = refl
or_else-none (some a) = refl

-- An image of the machine that no other one follows.
pub record IsLast (machine : Text) (imgs : List OnieImage) (img : OnieImage) : Type 0 where
  pub before : List OnieImage
  pub after : List OnieImage
  pub split : imgs ≡ before ++ img ∷ after
  pub vendor : img.vendor ≡ machine
  pub others : All (λ other. other.vendor ≢ machine) after

abbrev LastOf : Text → List OnieImage → Option OnieImage → Type 0
LastOf machine imgs none = All (λ img. img.vendor ≢ machine) imgs
LastOf machine imgs (some img) = IsLast machine imgs img

-- What a reply says of the request: no image is configured for the machine, or its last image has
-- the file of the operation, or the operation is none of the two.
abbrev pub IsExpected : List OnieImage → Text → Text → Reply → Type 0
IsExpected imgs machine operation no_image = All (λ img. img.vendor ≢ machine) imgs
IsExpected imgs machine operation (unknown_operation other) =
    (other ≡ operation)
    × (operation ≢ codes "onie-update")
    × (operation ≢ codes "os-install")
    × (img : OnieImage) × IsLast machine imgs img
IsExpected imgs machine operation (file path) =
    (img : OnieImage) × IsLast machine imgs img
    × (((operation ≡ codes "onie-update") × (path ≡ b'/' ∷ img.onie_updater))
        ⊎ ((operation ≡ codes "os-install") × (path ≡ b'/' ∷ img.onie_installer)))

extended :
    (machine : Text) (img : OnieImage) (imgs : List OnieImage) (o : Option OnieImage) (b : Bool)
    → text_eq img.vendor machine ≡ b
    → LastOf machine imgs o
    → LastOf machine (img ∷ imgs) (or_else o (if b then some img else none))
unfolding or_else
extended machine img imgs (some i) b e l = record {
  before = img ∷ l.before;
  after = l.after;
  split = ap (λ rest. img ∷ rest) l.split;
  vendor = l.vendor;
  others = l.others;
}
extended machine img imgs none true e l = record {
  before = [];
  after = imgs;
  split = refl;
  vendor = (text_eq_iff img.vendor machine).0 e;
  others = l;
}
extended machine img imgs none false e l =
    (λ h. ground (arith, e, h, text_eq_iff img.vendor machine), l)

last_image-LastOf :
    (machine : Text) (imgs : List OnieImage) → LastOf machine imgs (last_image machine imgs)
unfolding last_image
last_image-LastOf machine [] = tt
last_image-LastOf machine (img ∷ imgs) =
    extended machine img imgs (last_image machine imgs) (text_eq img.vendor machine) refl
      (last_image-LastOf machine imgs)

-- The branches of the reply, by the tests of the operation.
image_reply-IsExpected :
    (imgs : List OnieImage) (machine operation : Text) (img : OnieImage) (update install : Bool)
    → text_eq operation (codes "onie-update") ≡ update
    → text_eq operation (codes "os-install") ≡ install
    → IsLast machine imgs img
    → IsExpected imgs machine operation (
        if update
        then file (codes "/" ++ img.onie_updater)
        else if install
        then file (codes "/" ++ img.onie_installer)
        else unknown_operation operation)
unfolding codes
image_reply-IsExpected imgs machine operation img true install e f l =
    (img, l, inl ((text_eq_iff operation (codes "onie-update")).0 e, refl))
image_reply-IsExpected imgs machine operation img false true e f l =
    (img, l, inr ((text_eq_iff operation (codes "os-install")).0 f, refl))
image_reply-IsExpected imgs machine operation img false false e f l = (
  refl,
  λ h. ground (arith, e, h, text_eq_iff operation (codes "onie-update")),
  λ h. ground (arith, f, h, text_eq_iff operation (codes "os-install")),
  img,
  l,
)

reply_for-IsExpected :
    (imgs : List OnieImage) (machine operation : Text) (o : Option OnieImage)
    → LastOf machine imgs o
    → IsExpected imgs machine operation (reply_for operation o)
unfolding reply_for image_reply
reply_for-IsExpected imgs machine operation none l = l
reply_for-IsExpected imgs machine operation (some img) l =
    image_reply-IsExpected imgs machine operation img (text_eq operation (codes "onie-update"))
      (text_eq operation (codes "os-install")) refl refl l

-- A machine for which no image is configured gets no image. Else, of the images configured for it the
-- last one counts: onie-update gets its updater and os-install its installer, by the path after the
-- slash, and any other operation is reported as unknown.
pub serve-IsExpected :
    (imgs : List OnieImage) (machine operation : Text)
    → IsExpected imgs machine operation (serve (images_of imgs) machine operation)
unfolding serve images_of lookup
serve-IsExpected imgs machine operation =
    reply_for-IsExpected imgs machine operation (lookup machine (images_of imgs)) (
      subst (LastOf machine imgs)
        (sym (loop-last machine imgs [] ∙ or_else-none (last_image machine imgs)))
        (last_image-LastOf machine imgs))

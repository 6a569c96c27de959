-- ===== src/ImageProcessor.antt =====
-- image_processor: the worker that makes the copies of an image.
pub mod Rotation
pub mod Worker
pub mod Loop

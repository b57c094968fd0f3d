-- ===== src/AccessReview.antt =====
-- features/accessreview/AccessReviewView.tsx: which verbs a subject may use on which resources.
pub mod Matrix
pub mod Subjects
mod Tests

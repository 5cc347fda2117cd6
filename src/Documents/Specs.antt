-- ===== src/Documents/Specs.antt =====
-- The types of documents (services/document_quality.py,
-- `DOCUMENT_TYPE_SPECS`).
use agentic_learning_platfor.Base.{String, List, [], ◌∷◌}

pub record DocumentTypeSpec : Type 0 where
  pub code : String
  pub label : String
  pub primary_use : String
  pub required_fields : List String
  pub recommended_fields : List String
  pub chunk_strategy : String
  pub prompt_template : String
  pub generated_tasks : List String

abbrev resume : DocumentTypeSpec
resume = record {
  code = "resume";
  label = "简历";
  primary_use = "画像、岗位匹配、面试追问";
  required_fields = "basic_info" ∷ "skills" ∷ "projects" ∷ "work_experience" ∷ [];
  recommended_fields = "education" ∷ "metrics" ∷ "achievements" ∷ "target_role" ∷ [];
  chunk_strategy = "split_by_section_then_project";
  prompt_template = "extract_resume_profile";
  generated_tasks = "jd_match" ∷ "resume_rewrite" ∷ "interview_followups" ∷ [];
}

abbrev jd : DocumentTypeSpec
jd = record {
  code = "jd";
  label = "JD";
  primary_use = "岗位理解、差距分析、学习路径";
  required_fields = "title" ∷ "responsibilities" ∷ "hard_skills" ∷ "experience_requirements" ∷ [];
  recommended_fields = "soft_skills" ∷ "bonus_items" ∷ "seniority" ∷ "keyword_weights" ∷ [];
  chunk_strategy = "split_by_requirement_group";
  prompt_template = "extract_jd_requirements";
  generated_tasks = "skill_gap_analysis" ∷ "learning_plan" ∷ "resume_keyword_alignment" ∷ [];
}

abbrev project_review : DocumentTypeSpec
project_review = record {
  code = "project_review";
  label = "项目复盘";
  primary_use = "项目深挖、STAR 表达、面试追问";
  required_fields = "background" ∷ "goal" ∷ "solution" ∷ "personal_contribution" ∷ "result" ∷ [];
  recommended_fields =
      "architecture" ∷ "technical_details" ∷ "tradeoffs" ∷ "metrics" ∷ "reflection" ∷ [];
  chunk_strategy = "split_by_star_and_technical_blocks";
  prompt_template = "extract_project_review";
  generated_tasks = "star_answer" ∷ "technical_followups" ∷ "resume_project_bullets" ∷ [];
}

abbrev interview_notes : DocumentTypeSpec
interview_notes = record {
  code = "interview_notes";
  label = "八股笔记";
  primary_use = "知识问答、刷题、概念补齐";
  required_fields = "topic" ∷ "question" ∷ "answer" ∷ "principle" ∷ [];
  recommended_fields = "scenario" ∷ "pitfalls" ∷ "followups" ∷ "examples" ∷ "mastery_level" ∷ [];
  chunk_strategy = "split_by_question_answer";
  prompt_template = "extract_interview_notes";
  generated_tasks = "quiz" ∷ "followup_questions" ∷ "weakness_review" ∷ [];
}

abbrev interview_record : DocumentTypeSpec
interview_record = record {
  code = "interview_record";
  label = "面试记录";
  primary_use = "复盘、题库沉淀、能力评估";
  required_fields = "company" ∷ "role" ∷ "round" ∷ "questions" ∷ "answers" ∷ [];
  recommended_fields = "feedback" ∷ "weaknesses" ∷ "next_actions" ∷ "result" ∷ "date" ∷ [];
  chunk_strategy = "split_by_interview_round_and_question";
  prompt_template = "extract_interview_record";
  generated_tasks = "post_interview_review" ∷ "weakness_tasks" ∷ "company_question_bank" ∷ [];
}

abbrev company_question_bank : DocumentTypeSpec
company_question_bank = record {
  code = "company_question_bank";
  label = "公司题库";
  primary_use = "定向备战、公司画像";
  required_fields = "company" ∷ "role" ∷ "questions" ∷ "knowledge_points" ∷ [];
  recommended_fields = "difficulty" ∷ "answer" ∷ "frequency" ∷ "round" ∷ "last_seen_at" ∷ [];
  chunk_strategy = "split_by_company_role_question";
  prompt_template = "extract_company_question_bank";
  generated_tasks = "targeted_drill" ∷ "company_profile" ∷ "question_frequency_report" ∷ [];
}

abbrev code_project_readme : DocumentTypeSpec
code_project_readme = record {
  code = "code_project_readme";
  label = "代码项目说明";
  primary_use = "项目理解、代码 RAG、技术表达";
  required_fields = "overview" ∷ "tech_stack" ∷ "module_structure" ∷ "startup" ∷ [];
  recommended_fields = "core_flow" ∷ "key_implementation" ∷ "data_flow" ∷ "api" ∷ "call_chain" ∷ [];
  chunk_strategy = "split_by_module_and_flow";
  prompt_template = "extract_code_project_readme";
  generated_tasks = "codebase_overview" ∷ "technical_explanation" ∷ "onboarding_checklist" ∷ [];
}

abbrev learning_note : DocumentTypeSpec
learning_note = record {
  code = "learning_note";
  label = "学习笔记";
  primary_use = "知识沉淀、学习路线";
  required_fields = "topic" ∷ "knowledge_points" ∷ "summary" ∷ [];
  recommended_fields = "examples" ∷ "practice" ∷ "usage" ∷ "review_points" ∷ "target_role" ∷ [];
  chunk_strategy = "split_by_topic_and_example";
  prompt_template = "extract_learning_note";
  generated_tasks = "review_plan" ∷ "flashcards" ∷ "practice_tasks" ∷ [];
}

abbrev offer_result : DocumentTypeSpec
offer_result = record {
  code = "offer_result";
  label = "Offer / 面试结果";
  primary_use = "分析求职转化率、岗位匹配效果";
  required_fields = "company" ∷ "role" ∷ "result" ∷ "stage" ∷ [];
  recommended_fields =
      "compensation" ∷ "timeline" ∷ "reason" ∷ "followup" ∷ "conversion_notes" ∷ [];
  chunk_strategy = "split_by_company_and_stage";
  prompt_template = "extract_offer_result";
  generated_tasks = "conversion_analysis" ∷ "offer_comparison" ∷ "next_application_strategy" ∷ [];
}

abbrev technical_design : DocumentTypeSpec
technical_design = record {
  code = "technical_design";
  label = "技术方案 / 架构设计";
  primary_use = "沉淀系统设计能力，用于高阶面试和项目包装";
  required_fields = "background" ∷ "goal" ∷ "architecture" ∷ "solution" ∷ [];
  recommended_fields =
      "tradeoffs" ∷ "risks" ∷ "metrics" ∷ "alternatives" ∷ "implementation_plan" ∷ [];
  chunk_strategy = "split_by_architecture_decision";
  prompt_template = "extract_technical_design";
  generated_tasks = "system_design_answer" ∷ "architecture_review" ∷ "project_packaging" ∷ [];
}

abbrev pub document_type_specs : List DocumentTypeSpec
document_type_specs =
    resume ∷ jd ∷ project_review ∷ interview_notes ∷ interview_record ∷ company_question_bank
    ∷ code_project_readme ∷ learning_note ∷ offer_result ∷ technical_design ∷ []
